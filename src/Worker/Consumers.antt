-- ===== src/Worker/Consumers.antt =====
-- Two consumers on one set of rollup tables.
use analytics_pipeline.Prelude.{
  ℕ, String, List, [], ◌∷◌, ◌++◌, false, map, get, contains, contains-append, filter, IsDistinct,
  ℕ_discrete, ◌≡◌, ◌≢◌, refl, arith, ◌∙◌,
}
use analytics_pipeline.Result.{ok}
use analytics_pipeline.Records.{RawEvent, RollupKey, RollupKey_discrete, RollupGranularity}
use analytics_pipeline.Rollup.Summary.{combine}
use analytics_pipeline.Database.{Database, rollup_of}
use analytics_pipeline.Worker.Markers.{Marker_discrete}
use analytics_pipeline.Worker.Markers.Laws.{unmarked}
use analytics_pipeline.Worker.Batch.{Batch, ids, process_events, upsert_consumer_offset}
use analytics_pipeline.Worker.Totals.{total}
use analytics_pipeline.Worker.Commit.{after, fresh, process_events-ok, with_deltas}
use analytics_pipeline.Worker.Exact.{get-rollup_of-after}

contains-other :
    (a b : String) (x : ℕ) (xs : List ℕ)
    → a ≢ b
    → contains Marker_discrete (b, x) (map (λ id. (a, id)) xs) ≡ false
unfolding contains
contains-other a b x [] h = refl
contains-other a b x (y ∷ ys) h = ground (arith, contains-other a b x ys h)

unmarked-other :
    (table : List (String × ℕ)) (a b : String) (x : ℕ) (xs : List ℕ)
    → a ≢ b
    → unmarked (table ++ map (λ id. (a, id)) xs) b x ≡ unmarked table b x
unfolding unmarked
unmarked-other table a b x xs h = ground (
  arith,
  contains-append Marker_discrete (b, x) table (map (λ id. (a, id)) xs),
  contains-other a b x xs h,
)

filter-other :
    (table : List (String × ℕ)) (a b : String) (xs : List ℕ) (events : List RawEvent)
    → a ≢ b
    → filter (λ e. unmarked (table ++ map (λ id. (a, id)) xs) b e.id) events
      ≡ filter (λ e. unmarked table b e.id) events
unfolding filter
filter-other table a b xs [] h = refl
filter-other table a b xs (e ∷ es) h =
    ground (arith, unmarked-other table a b e.id xs h, filter-other table a b xs es h)

-- the markers of one consumer are nothing to another
fresh-after :
    (a b : String) (db : Database) (e : RawEvent) (es : List RawEvent)
    → a ≢ b
    → fresh (after a db e es) b (e ∷ es) ≡ fresh db b (e ∷ es)
unfolding fresh after with_deltas upsert_consumer_offset
fresh-after a b db e es h = filter-other db.processed_rollup_events a b _ (e ∷ es) h

-- If two consumers with different ids each process the same events, of which neither has a marker,
-- both commit and every row has the events twice.
pub process_events-twice :
    (a b : String) (db : Database) (e : RawEvent) (es : List RawEvent) (g : RollupGranularity)
    (k : RollupKey)
    → a ≢ b
    → IsDistinct ℕ_discrete (ids (e ∷ es))
    → fresh db a (e ∷ es) ≡ e ∷ es
    → fresh db b (e ∷ es) ≡ e ∷ es
    → (one two : Database) × (first second : Batch) × (process_events a db e es ≡ ok (one, first))
      × (process_events b one e es ≡ ok (two, second))
      × (get RollupKey_discrete k (rollup_of g two)
          ≡ combine
              (combine (get RollupKey_discrete k (rollup_of g db)) (total g k (e ∷ es)))
              (total g k (e ∷ es)))
process_events-twice a b db e es g k apart distinct new_a new_b =
    let one = after a db e es in
    let two = after b one e es in
    (
      one,
      two,
      _,
      _,
      process_events-ok a db e es distinct,
      process_events-ok b one e es distinct,
      get-rollup_of-after g k b one e es
          ∙ rw (fresh-after a b db e es apart, new_b, get-rollup_of-after g k a db e es, new_a)
              refl,
    )
