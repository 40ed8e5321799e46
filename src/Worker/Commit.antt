-- ===== src/Worker/Commit.antt =====
-- A batch never raises, and what it commits, with the helpers gone.
use analytics_pipeline.Prelude.{
  String, List, [], ◌∷◌, ◌++◌, map, contains, contains-filter, filter, filter_congr-All, All-map,
  All-contains, IsDistinct, last_of, ℕ_discrete, ◌≡◌, refl, arith,
}
use analytics_pipeline.Result.{ok}
use analytics_pipeline.Records.{RawEvent, minute, hour, day}
use analytics_pipeline.Rollup.Aggregate.{aggregate_batch, agg_of, aggregate_from}
use analytics_pipeline.Rollup.Aggregate.Laws.{aggregate_batch-HasDistinctKeys}
use analytics_pipeline.Rollup.Table.{upsert_rows}
use analytics_pipeline.Rollup.Table.Laws.{batch_upsert-ok}
use analytics_pipeline.Database.{Database}
use analytics_pipeline.Worker.Markers.Laws.{unmarked, new_ids-eq-unmarked, table-append-new_ids}
use analytics_pipeline.Worker.Batch.{ids, upsert_consumer_offset, upsert_new_events, process_events}

-- the three tables with the deltas of some events
unfoldable pub with_deltas : List RawEvent → Database → Database
with_deltas es db =
    let agg = aggregate_batch es in
    record db {
      rollup_minute = upsert_rows (agg_of minute agg) db.rollup_minute;
      rollup_hour = upsert_rows (agg_of hour agg) db.rollup_hour;
      rollup_day = upsert_rows (agg_of day agg) db.rollup_day;
    }

upsert_new_events-ok :
    (es : List RawEvent) (db : Database) → upsert_new_events es db ≡ ok (with_deltas es db)
unfolding upsert_new_events with_deltas
upsert_new_events-ok [] db = unfold aggregate_batch aggregate_from agg_of upsert_rows in refl
upsert_new_events-ok (e ∷ es) db =
    let m = aggregate_batch-HasDistinctKeys minute (e ∷ es) in
    let h = aggregate_batch-HasDistinctKeys hour (e ∷ es) in
    let d = aggregate_batch-HasDistinctKeys day (e ∷ es) in
    unfold agg_of in
    rw (
      batch_upsert-ok _ db.rollup_minute m,
      batch_upsert-ok _ db.rollup_hour h,
      batch_upsert-ok _ db.rollup_day d,
    )

-- the events of a batch with no marker
unfoldable pub fresh : Database → String → List RawEvent → List RawEvent
fresh db c = filter (λ e. unmarked db.processed_rollup_events c e.id)

-- the tables after a batch
unfoldable pub after : String → Database → RawEvent → List RawEvent → Database
after c db e es =
    let last = last_of e es in
    let new_ids = filter (unmarked db.processed_rollup_events c) (ids (e ∷ es)) in
    upsert_consumer_offset c last.id last.occurred_at (
      with_deltas (fresh db c (e ∷ es)) (record db {
        processed_rollup_events = db.processed_rollup_events ++ map (λ id. (c, id)) new_ids;
      }))

new_events-fresh :
    (db : Database) (c : String) (events : List RawEvent)
    → filter
        (λ e.
          contains ℕ_discrete e.id (filter (unmarked db.processed_rollup_events c) (ids events)))
        events
      ≡ fresh db c events
unfolding fresh
new_events-fresh db c events = filter_congr-All _ _ events (
    All-map events
      (λ e h. ground (
        arith,
        contains-filter ℕ_discrete (unmarked db.processed_rollup_events c) e.id (ids events),
        h,
      ))
      (All-contains ℕ_discrete (λ (e : RawEvent). e.id) events))

-- If no event id stands twice among the fetched events, the batch commits: the events without a
-- marker are counted, they get their markers, and the offset moves to the last event.
pub process_events-ok :
    (c : String) (db : Database) (e : RawEvent) (es : List RawEvent)
    → IsDistinct ℕ_discrete (ids (e ∷ es))
    → process_events c db e es
      ≡ ok (after c db e es, record { events = e ∷ es; new_events = fresh db c (e ∷ es) })
unfolding process_events after
process_events-ok c db e es h = rw (
  table-append-new_ids db.processed_rollup_events c (ids (e ∷ es)),
  new_ids-eq-unmarked db.processed_rollup_events c (ids (e ∷ es)) h,
  new_events-fresh db c (e ∷ es),
  upsert_new_events-ok,
)
