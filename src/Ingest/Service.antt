-- ===== src/Ingest/Service.antt =====
-- `ingest_event` of app/services/ingestion_service.py, the route POST /events of
-- app/api/routes/events.py, and the session of a request, `get_db` of app/db/engine.py. What Redis
-- answers to `record_ingestion` is an argument.
use analytics_pipeline.Prelude.{
  ℕ, String, Bool, true, false, Option, none, some, update, Dict, String_discrete, ◌+◌,
  if◌then◌else◌,
}
use analytics_pipeline.Result.{Result, Error, ok, err, merchant_not_found, ◌>>=◌}
use analytics_pipeline.Moment.{Datetime}
use analytics_pipeline.Records.{RawEvent, EventIngest, value}
use analytics_pipeline.Database.{Database}
use analytics_pipeline.Ingest.Store.{insert_event, merchant_exists}

-- The Prometheus counters, by event type. They belong to the process, and no rollback resets them.
pub record Counters : Type 0 where
  pub events_ingested : Dict String ℕ
  pub duplicate_events : Dict String ℕ

pub record EventIngestResponse : Type 0 where
  pub event_id : ℕ
  pub idempotency_key : String
  pub occurred_at : Datetime
  pub duplicate : Bool

-- `.labels(event_type=...).inc(n)`
unfoldable pub inc : ℕ → Option ℕ → ℕ
inc n none = n
inc n (some k) = k + n

unfoldable pub count_event : String → Bool → Counters → Counters
count_event event_type true counters = record counters {
  duplicate_events = update String_discrete event_type (inc 1) counters.duplicate_events;
}
count_event event_type false counters = record counters {
  events_ingested = update String_discrete event_type (inc 1) counters.events_ingested;
}

-- after the insertion: count, and tell Redis of an event that is new
unfoldable pub ingested :
    Result (Unit {0})
    → String
    → Database × RawEvent × Bool
    → Counters
    → Counters × Result (Database × EventIngestResponse × Bool)
ingested redis event_type (db, row, is_duplicate) counters = (
  count_event event_type is_duplicate counters,
  do
    recorded ← if is_duplicate then ok tt else redis
    ok (
      db,
      record {
        event_id = row.id;
        idempotency_key = row.idempotency_key;
        occurred_at = row.occurred_at;
        duplicate = is_duplicate;
      },
      is_duplicate,
    ),
)

unfoldable pub ingest_inserted :
    Result (Unit {0})
    → String
    → Result (Database × RawEvent × Bool)
    → Counters
    → Counters × Result (Database × EventIngestResponse × Bool)
ingest_inserted redis event_type (ok inserted) counters =
    ingested redis event_type inserted counters
ingest_inserted redis event_type (err e) counters = (counters, err e)

-- `ingest_event`; `at` is the service's datetime.now() and `now` is the transaction's NOW()
unfoldable pub ingest_event :
    Result (Unit {0})
    → ℕ
    → Datetime
    → Datetime
    → EventIngest
    → Database
    → Counters
    → Counters × Result (Database × EventIngestResponse × Bool)
ingest_event redis event_id at now event db counters =
    if merchant_exists event.merchant_id db
    then ingest_inserted redis (value event.event_type) (insert_event event_id at now event db)
        counters
    else (counters, err (merchant_not_found event.merchant_id))

-- What the client gets: a status and a body, the status of an HTTPException, or an error that the
-- route does not catch.
pub data Reply : Type 0 where
  reply : ℕ → EventIngestResponse → Reply
  http_exception : ℕ → Reply
  raised : Error → Reply

-- the route's `except` clauses
unfoldable pub reply_error : Error → Reply
reply_error (merchant_not_found id) = http_exception 404
reply_error e = raised e

-- the session commits what the route returned with, and rolls back on whatever it raised
unfoldable pub finish_request :
    Database → Result (Database × EventIngestResponse × Bool) → Database × Reply
finish_request before (ok (db, response, is_duplicate)) =
    (db, reply (if is_duplicate then 200 else 202) response)
finish_request before (err e) = (before, reply_error e)

-- POST /events
unfoldable pub post_event :
    Result (Unit {0})
    → ℕ
    → Datetime
    → Datetime
    → EventIngest
    → Database
    → Counters
    → Counters × Database × Reply
post_event redis event_id at now event db counters =
    let (counters', result) = ingest_event redis event_id at now event db counters in
    let (db', answer) = finish_request db result in (counters', db', answer)
