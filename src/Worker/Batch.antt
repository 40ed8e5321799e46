-- ===== src/Worker/Batch.antt =====
-- `_process_batch` of app/workers/rollup_worker.py: the transaction of one batch, and what it
-- calls of app/repositories/rollup_repository.py.
use analytics_pipeline.Prelude.{
  ℕ, String, List, [], ◌∷◌, Option, none, some, map, get, update, contains, filter, last_of,
  ℕ_discrete, String_discrete,
}
use analytics_pipeline.Settings.{Settings}
use analytics_pipeline.Result.{Result, ok, err, ◌>>=◌}
use analytics_pipeline.Moment.{Datetime}
use analytics_pipeline.Records.{RawEvent, ConsumerOffset}
use analytics_pipeline.Rollup.Aggregate.{aggregate_batch}
use analytics_pipeline.Rollup.Table.{batch_upsert}
use analytics_pipeline.Database.{Database}
use analytics_pipeline.Worker.Fetch.{get_events_after}
use analytics_pipeline.Worker.Markers.{insert_processed_markers}

-- What a batch fetched, and what of it had no marker.
pub record Batch : Type 0 where
  pub events : List RawEvent
  pub new_events : List RawEvent

abbrev pub ids : List RawEvent → List ℕ
ids = map (λ e. e.id)

unfoldable pub get_consumer_offset : Database → String → Option ConsumerOffset
get_consumer_offset db consumer_id = get String_discrete consumer_id db.consumer_offsets

unfoldable pub upsert_consumer_offset : String → ℕ → Datetime → Database → Database
upsert_consumer_offset consumer_id last_event_id last_event_at db = record db {
  consumer_offsets =
      update String_discrete consumer_id
        (λ _. record { last_event_id = some last_event_id; last_event_at = some last_event_at })
        db.consumer_offsets;
}

-- offset.last_event_id if offset else None
unfoldable pub last_event_id_of : Option ConsumerOffset → Option ℕ
last_event_id_of none = none
last_event_id_of (some offset) = offset.last_event_id

-- if new_events: aggregate, and upsert the three tables
unfoldable pub upsert_new_events : List RawEvent → Database → Result Database
upsert_new_events [] db = ok db
upsert_new_events (e ∷ es) db = do
  let agg = aggregate_batch (e ∷ es)
  minutes ← batch_upsert agg.minute_agg db.rollup_minute
  hours ← batch_upsert agg.hour_agg db.rollup_hour
  days ← batch_upsert agg.day_agg db.rollup_day
  ok (record db { rollup_minute = minutes; rollup_hour = hours; rollup_day = days })

-- from the markers to the commit, on the fetched events `e ∷ es`
unfoldable pub process_events :
    String → Database → RawEvent → List RawEvent → Result (Database × Batch)
process_events consumer_id db e es = do
  let events = e ∷ es
  let inserted = insert_processed_markers db.processed_rollup_events consumer_id (ids events)
  let new_events = filter (λ event. contains ℕ_discrete event.id inserted.1) events
  let last = last_of e es
  db' ← upsert_new_events new_events (record db { processed_rollup_events = inserted.0 })
  ok (
    upsert_consumer_offset consumer_id last.id last.occurred_at db',
    record { events = events; new_events = new_events },
  )

unfoldable pub process_fetched : String → Database → List RawEvent → Result (Database × Batch)
process_fetched consumer_id db [] = ok (db, record { events = []; new_events = [] })
process_fetched consumer_id db (e ∷ es) = process_events consumer_id db e es

-- the events that the batch reads
unfoldable pub fetch : Settings → Database → List RawEvent
fetch settings db =
    get_events_after db.raw_events (last_event_id_of (get_consumer_offset db settings.worker_id))
      settings.worker_batch_size

unfoldable pub process_batch : Settings → Database → Result (Database × Batch)
process_batch settings db = process_fetched settings.worker_id db (fetch settings db)

-- The session is left without a commit when a statement raises, which rolls the transaction back.
unfoldable pub committed : Database → Result (Database × Batch) → Database
committed db (ok (db', batch)) = db'
committed db (err e) = db
