-- ===== src/Worker/Measured.antt =====
-- The sums over any choice of rows, beside the events that have a marker.
use analytics_pipeline.Prelude.{
  ℕ, ◌+◌, String, Bool, List, [], ◌∷◌, filter, IsDistinct, ℕ_discrete, ◌≡◌, refl, sym, ap, ◌∙◌,
  arith,
}
use analytics_pipeline.Settings.{Settings}
use analytics_pipeline.Records.{RawEvent, RollupKey, RollupGranularity, minute, hour, day}
use analytics_pipeline.Rollup.Aggregate.{aggregate_batch, agg_of}
use analytics_pipeline.Database.{Database, empty_database, rollup_of}
use analytics_pipeline.Worker.Fetch.Split.{not_fetched, get_events_after-perm}
use analytics_pipeline.Worker.Batch.{
  ids, get_consumer_offset, last_event_id_of, process_batch, fetch, committed,
}
use analytics_pipeline.Worker.Commit.{fresh}
use analytics_pipeline.Worker.Exact.{marked, IsExact, rollup_of-after, empty-IsExact}
use analytics_pipeline.Worker.Replay.{
  Step, Reach, here, next, batch, crash, seek, store, after_fetched, rollup_of-raw,
  rollup_of-offsets, filter_new, Reach-IsExact,
}
use analytics_pipeline.Worker.Idempotent.{committed-batch}
use analytics_pipeline.Worker.Weigh.{
  weight, weight-filter-perm, counted_weight, after_fetched-counted_weight,
}
use analytics_pipeline.Worker.Measure.{
  Measure, share, held_by, held_by-upsert_rows, pending-aggregate_batch,
}

held_by-empty_database :
    (m : Measure) (q : RollupKey → Bool) (g : RollupGranularity) (merchants : List ℕ)
    → held_by m q (rollup_of g (empty_database merchants)) ≡ 0
unfolding rollup_of held_by
held_by-empty_database m q minute merchants = refl
held_by-empty_database m q hour merchants = refl
held_by-empty_database m q day merchants = refl

module _ (m : Measure) (q : RollupKey → Bool) (g : RollupGranularity) where
  -- The rows hold what the events with a marker add.
  abbrev IsMeasured : String → Database → Type 0
  IsMeasured c db = held_by m q (rollup_of g db) ≡ counted_weight (share m q g) c db

  held_by-after_fetched :
      (c : String) (db : Database) (events : List RawEvent)
      → held_by m q (rollup_of g (after_fetched c db events))
        ≡ held_by m q (rollup_of g db) + weight (share m q g) (fresh db c events)
  unfolding after_fetched
  held_by-after_fetched c db [] = unfold fresh filter weight in omega arith
  held_by-after_fetched c db (e ∷ es) =
      let new = fresh db c (e ∷ es) in
      ground (
        arith,
        ap (held_by m q) (rollup_of-after g c db e es),
        held_by-upsert_rows m q (agg_of g (aggregate_batch new)) (rollup_of g db),
        pending-aggregate_batch m q g new,
      )

  batch-IsMeasured :
      (s : Settings) (db : Database)
      → IsDistinct ℕ_discrete (ids db.raw_events)
      → IsMeasured s.worker_id db
      → IsMeasured s.worker_id (committed db (process_batch s db))
  batch-IsMeasured s db d h =
      let c = s.worker_id in
      let last = last_event_id_of (get_consumer_offset db c) in
      let counted =
        after_fetched-counted_weight (share m q g) c db (fetch s db)
          (not_fetched db.raw_events last s.worker_batch_size) d
          (unfold fetch in get_events_after-perm db.raw_events last s.worker_batch_size) in
      rw (committed-batch s db d)
        (ground (arith, h, counted, held_by-after_fetched c db (fetch s db)))

  Step-IsMeasured :
      {s : Settings} {db db' : Database}
      → IsExact s.worker_id db
      → Step s db db'
      → IsMeasured s.worker_id db
      → IsMeasured s.worker_id db'
  unfolding counted_weight
  Step-IsMeasured {s} e (batch db) h = batch-IsMeasured s db e.distinct h
  Step-IsMeasured e (crash db) h = h
  Step-IsMeasured e (seek db offsets) h = ap (held_by m q) (rollup_of-offsets g db offsets) ∙ h
  Step-IsMeasured {s} x (store db e raw new p) h =
      let old = marked db.processed_rollup_events s.worker_id in
      ap (held_by m q) (rollup_of-raw g db raw)
      ∙ h
      ∙ ap (weight (share m q g)) (sym (filter_new s.worker_id db e x new))
      ∙ sym (weight-filter-perm (share m q g) old p)

  empty-IsMeasured : (c : String) (merchants : List ℕ) → IsMeasured c (empty_database merchants)
  unfolding counted_weight weight filter
  empty-IsMeasured c merchants = held_by-empty_database m q g merchants

  -- From a new installation on, whatever happens.
  pub Reach-IsMeasured :
      (s : Settings) (merchants : List ℕ) {db : Database}
      → Reach s (empty_database merchants) db
      → held_by m q (rollup_of g db) ≡ counted_weight (share m q g) s.worker_id db
  Reach-IsMeasured s merchants here = empty-IsMeasured s.worker_id merchants
  Reach-IsMeasured s merchants (next r st) =
      Step-IsMeasured (Reach-IsExact s (empty-IsExact s.worker_id merchants) r) st
        (Reach-IsMeasured s merchants r)
