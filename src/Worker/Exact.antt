-- ===== src/Worker/Exact.antt =====
-- Every rollup row is the summary of exactly the events that have a marker.
use mathlib.Core.List.{Perm, map-append}
use mathlib.Core.List.Perm
use analytics_pipeline.Prelude.{
  ℕ, String, Bool, true, false, List, [], ◌∷◌, ◌++◌, map, get, contains, contains-append,
  contains-filter, contains-perm, filter, filter-append, filter_congr-All, filter-All_self, All-map,
  All-contains, IsDistinct, IsDistinct-perm, IsDistinct-append_inv, ℕ_discrete, ◌≡◌, refl, sym, ap,
  ◌∙◌, arith, if◌then◌else◌,
}
use analytics_pipeline.Records.{
  RawEvent, RollupKey, RollupKey_discrete, RollupGranularity, minute, hour, day,
}
use analytics_pipeline.Rollup.Summary.{summarise, combine, combine_assoc, combine_comm}
use analytics_pipeline.Rollup.Aggregate.{aggregate_batch, agg_of}
use analytics_pipeline.Rollup.Aggregate.Laws.{
  amounts_at, row_at-aggregate_batch, aggregate_batch-HasDistinctKeys,
}
use analytics_pipeline.Rollup.Table.{upsert_rows}
use analytics_pipeline.Rollup.Table.Laws.{get-upsert_rows}
use analytics_pipeline.Database.{Database, empty_database, rollup_of}
use analytics_pipeline.Worker.Markers.{Marker_discrete}
use analytics_pipeline.Worker.Markers.Laws.{unmarked}
use analytics_pipeline.Worker.Batch.{ids, upsert_consumer_offset}
use analytics_pipeline.Worker.Totals.{total, total-append, total-filter-perm, total-filter-not}
use analytics_pipeline.Worker.Commit.{with_deltas, fresh, after}

-- the consumer has a marker for the event
unfoldable pub marked : List (String × ℕ) → String → RawEvent → Bool
marked table c e = contains Marker_discrete (c, e.id) table

pub record IsExact (c : String) (db : Database) : Type 0 where
  -- event ids are distinct
  pub distinct : IsDistinct ℕ_discrete (ids db.raw_events)
  -- a marker is for an event that is stored
  pub known :
      (id : ℕ)
      → contains Marker_discrete (c, id) db.processed_rollup_events ≡ true
      → contains ℕ_discrete id (ids db.raw_events) ≡ true
  -- at every key of every granularity: the summary of the marked events, each counted once
  pub exact :
      (g : RollupGranularity) (k : RollupKey)
      → get RollupKey_discrete k (rollup_of g db)
        ≡ total g k (filter (marked db.processed_rollup_events c) db.raw_events)

pub contains-pair :
    (c : String) (x : ℕ) (xs : List ℕ)
    → contains Marker_discrete (c, x) (map (λ id. (c, id)) xs) ≡ contains ℕ_discrete x xs
unfolding contains
contains-pair c x [] = refl
contains-pair c x (y ∷ ys) = ground (arith, contains-pair c x ys)

-- the markers after a batch
unfoldable pub markers_after : List (String × ℕ) → String → List RawEvent → List (String × ℕ)
markers_after table c events = table ++ map (λ id. (c, id)) (filter (unmarked table c) (ids events))

-- After a batch an event has a marker if it had one, or if it is of the batch.
pub marked-after :
    (table : List (String × ℕ)) (c : String) (events : List RawEvent) (x : ℕ)
    → contains Marker_discrete (c, x) (markers_after table c events)
      ≡ (if contains Marker_discrete (c, x) table then true else contains ℕ_discrete x (ids events))
unfolding markers_after unmarked
marked-after table c events x = ground (
  arith,
  contains-append Marker_discrete (c, x) table
      (map (λ id. (c, id)) (filter (unmarked table c) (ids events))),
  contains-pair c x (filter (unmarked table c) (ids events)),
  contains-filter ℕ_discrete (unmarked table c) x (ids events),
)

pub rollup_of-after :
    (g : RollupGranularity) (c : String) (db : Database) (e : RawEvent) (es : List RawEvent)
    → rollup_of g (after c db e es)
      ≡ upsert_rows (agg_of g (aggregate_batch (fresh db c (e ∷ es)))) (rollup_of g db)
unfolding rollup_of after with_deltas upsert_consumer_offset
rollup_of-after minute c db e es = refl
rollup_of-after hour c db e es = refl
rollup_of-after day c db e es = refl

-- the rows after a batch: what they were, and the events without a marker
pub get-rollup_of-after :
    (g : RollupGranularity) (k : RollupKey) (c : String) (db : Database) (e : RawEvent)
    (es : List RawEvent)
    → get RollupKey_discrete k (rollup_of g (after c db e es))
      ≡ combine (get RollupKey_discrete k (rollup_of g db)) (total g k (fresh db c (e ∷ es)))
unfolding total
get-rollup_of-after g k c db e es =
    let new = fresh db c (e ∷ es) in
    ap (get RollupKey_discrete k) (rollup_of-after g c db e es)
    ∙ get-upsert_rows k (agg_of g (aggregate_batch new)) (rollup_of g db)
        (aggregate_batch-HasDistinctKeys g new)
    ∙ ap (combine (get RollupKey_discrete k (rollup_of g db))) (row_at-aggregate_batch g k new)

-- The batch `events` and the `others` make up the table of events, whose ids are distinct.
module _ (table : List (String × ℕ)) (c : String) (events others : List RawEvent)
    (distinct : IsDistinct ℕ_discrete (ids (events ++ others))) where
  apart :
      (x : ℕ)
      → contains ℕ_discrete x (ids events) ≡ true
      → contains ℕ_discrete x (ids others) ≡ false
  apart =
      (IsDistinct-append_inv ℕ_discrete (ids events) (ids others) (rw (← map-append) distinct)).2

  pub marked_events : filter (marked (markers_after table c events) c) events ≡ events
  unfolding marked
  marked_events = filter-All_self _ events (
      All-map events (λ e h. ground (arith, marked-after table c events e.id, h))
        (All-contains ℕ_discrete (λ (e : RawEvent). e.id) events))

  pub marked_others :
      filter (marked (markers_after table c events) c) others ≡ filter (marked table c) others
  unfolding marked
  marked_others = filter_congr-All _ _ others (
      All-map others (λ e h. ground (arith, marked-after table c events e.id, apart e.id, h))
        (All-contains ℕ_discrete (λ (e : RawEvent). e.id) others))

  -- the total of the marked events grows by the events of the batch that had no marker
  total-marked-after :
      (g : RollupGranularity) (k : RollupKey)
      → total g k (filter (marked (markers_after table c events) c) (events ++ others))
        ≡ combine
            (total g k (filter (marked table c) (events ++ others)))
            (total g k (filter (λ e. unmarked table c e.id) events))
  total-marked-after g k =
      let old = total g k (filter (marked table c) events) in
      let new = total g k (filter (λ e. unmarked table c e.id) events) in
      let rest = total g k (filter (marked table c) others) in
      let swap : combine (combine old new) rest ≡ combine (combine old rest) new =
        combine_assoc old new rest
        ∙ ap (combine old) (combine_comm new rest)
        ∙ sym (combine_assoc old rest new) in
      let split : total g k events ≡ combine old new =
        total-filter-not g k (marked table c) events ∙ (unfold unmarked marked in refl) in
      ap (total g k) (filter-append (marked (markers_after table c events) c) events others)
      ∙ total-append g k (filter (marked (markers_after table c events) c) events)
          (filter (marked (markers_after table c events) c) others)
      ∙ rw (marked_events, marked_others) (ap (λ r. combine r rest) split)
      ∙ swap
      ∙ ap (λ r. combine r new)
          (sym
            (ap (total g k) (filter-append (marked table c) events others) ∙ total-append g k _ _))

-- A batch whose events are rows of the table, each once, keeps the rollups exact.
module _ (c : String) (db : Database) (e : RawEvent) (es others : List RawEvent) where
  pub raw_events-after : (after c db e es).raw_events ≡ db.raw_events
  unfolding after with_deltas upsert_consumer_offset
  raw_events-after = refl

  pub processed-after :
      (after c db e es).processed_rollup_events
      ≡ markers_after db.processed_rollup_events c (e ∷ es)
  unfolding after with_deltas upsert_consumer_offset markers_after
  processed-after = refl

  module _ (p : Perm db.raw_events ((e ∷ es) ++ others)) (h : IsExact c db) where
    ids_perm : Perm (ids db.raw_events) (ids ((e ∷ es) ++ others))
    ids_perm = Perm.map (λ (x : RawEvent). x.id) p

    known-after :
        (id : ℕ)
        → contains Marker_discrete (c, id) (markers_after db.processed_rollup_events c (e ∷ es))
          ≡ true
        → contains ℕ_discrete id (ids db.raw_events) ≡ true
    known-after id m = ground (
      arith,
      marked-after db.processed_rollup_events c (e ∷ es) id,
      h.known id,
      contains-perm ℕ_discrete id ids_perm,
      contains-append ℕ_discrete id (ids (e ∷ es)) (ids others),
      map-append (λ (x : RawEvent). x.id) (e ∷ es) others,
    )

    exact-after :
        (g : RollupGranularity) (k : RollupKey)
        → get RollupKey_discrete k (rollup_of g (after c db e es))
          ≡ total g k (
              filter (marked (markers_after db.processed_rollup_events c (e ∷ es)) c) db.raw_events)
    exact-after g k =
        get-rollup_of-after g k c db e es
        ∙ ap (λ r. combine r (total g k (fresh db c (e ∷ es))))
            (h.exact g k ∙ total-filter-perm g k (marked db.processed_rollup_events c) p)
        ∙ sym (
            total-filter-perm g k (marked (markers_after db.processed_rollup_events c (e ∷ es)) c) p
            ∙ total-marked-after db.processed_rollup_events c (e ∷ es) others
                (IsDistinct-perm ℕ_discrete ids_perm h.distinct) g k
            ∙ (unfold fresh in refl))

    pub after-IsExact : IsExact c (after c db e es)
    unfolding after upsert_consumer_offset with_deltas markers_after
    after-IsExact = record { distinct = h.distinct; known = known-after; exact = exact-after }

empty_exact :
    (g : RollupGranularity) (k : RollupKey) (merchants : List ℕ)
    → get RollupKey_discrete k (rollup_of g (empty_database merchants)) ≡ total g k []
unfolding rollup_of get total amounts_at summarise
empty_exact minute k merchants = refl
empty_exact hour k merchants = refl
empty_exact day k merchants = refl

-- The tables of a new installation are exact.
pub empty-IsExact : (c : String) (merchants : List ℕ) → IsExact c (empty_database merchants)
unfolding contains filter
empty-IsExact c merchants = record {
  distinct = tt;
  known = λ id m. m;
  exact = λ g k. empty_exact g k merchants;
}
