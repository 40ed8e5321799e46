-- ===== src/Ingest/Respond.antt =====
-- `ingest_batch` of app/services/ingestion_service.py and POST /events/batch of
-- app/api/routes/events.py.
use Prim.Native.Nat.{zero, suc}
use analytics_pipeline.Prelude.{
  ℕ, String, List, [], ◌∷◌, Bool, true, false, Option, none, some, Dict, get, update, map, filter,
  length, String_discrete,
}
use analytics_pipeline.Result.{Result, ok, err, merchant_not_found}
use analytics_pipeline.Moment.{Datetime}
use analytics_pipeline.Records.{RawEvent, EventIngest, value}
use analytics_pipeline.Database.{Database}
use analytics_pipeline.Ingest.Store.{by_key, get_by_idempotency_keys, missing_merchant_ids}
use analytics_pipeline.Ingest.Batch.{insert_batch}
use analytics_pipeline.Ingest.Service.{Counters, EventIngestResponse, inc, count_event}

pub record BatchIngestResponse : Type 0 where
  pub accepted : ℕ
  pub duplicates : ℕ
  pub events : List EventIngestResponse

unfoldable pub count_if : Option RawEvent → EventIngest → Counters → Counters
count_if none e counters = counters
count_if (some row) e counters = count_event (value e.event_type) false counters

-- the events whose key an inserted row has, counted by type
unfoldable pub count_inserted : Dict String RawEvent → List EventIngest → Counters → Counters
count_inserted inserted [] counters = counters
count_inserted inserted (e ∷ es) counters =
    count_inserted inserted es
      (count_if (get String_discrete e.idempotency_key inserted) e counters)

-- if duplicate_count: all of them under one label
unfoldable pub count_duplicates : ℕ → Counters → Counters
count_duplicates zero counters = counters
count_duplicates (suc n) counters = record counters {
  duplicate_events = update String_discrete "BATCH_UNKNOWN" (inc (suc n)) counters.duplicate_events;
}

unfoldable pub response_for : RawEvent → EventIngestResponse
response_for row = record {
  event_id = row.id;
  idempotency_key = row.idempotency_key;
  occurred_at = row.occurred_at;
  duplicate = false;
}

-- a duplicate: the stored event's id, or uuid.UUID(int=0)
unfoldable pub duplicate_response : Datetime → EventIngest → Option RawEvent → EventIngestResponse
duplicate_response at event none = record {
  event_id = 0;
  idempotency_key = event.idempotency_key;
  occurred_at = at;
  duplicate = true;
}
duplicate_response at event (some existing) = record {
  event_id = existing.id;
  idempotency_key = event.idempotency_key;
  occurred_at = existing.occurred_at;
  duplicate = true;
}

unfoldable pub respond_to :
    Dict String RawEvent → Datetime → EventIngest → Option RawEvent → EventIngestResponse
respond_to existing at event (some row) = response_for row
respond_to existing at event none =
    duplicate_response at event (get String_discrete event.idempotency_key existing)

unfoldable pub responses :
    Dict String RawEvent
    → Dict String RawEvent
    → Datetime
    → List EventIngest
    → List EventIngestResponse
responses inserted existing at [] = []
responses inserted existing at (e ∷ es) =
    respond_to existing at e (get String_discrete e.idempotency_key inserted)
    ∷ responses inserted existing at es

unfoldable pub is_missing : Option RawEvent → Bool
is_missing none = true
is_missing (some row) = false

-- the response map, from the rows that were inserted
unfoldable pub respond :
    Database → List RawEvent → ℕ → Datetime → List EventIngest → BatchIngestResponse
respond db rows duplicate_count at events =
    let inserted = by_key rows [] in
    let duplicate_keys =
      map (λ e. e.idempotency_key)
        (filter (λ e. is_missing (get String_discrete e.idempotency_key inserted)) events) in
    record {
      accepted = length rows;
      duplicates = duplicate_count;
      events = responses inserted (get_by_idempotency_keys duplicate_keys db) at events;
    }

-- if inserted_rows: count them, and tell Redis
unfoldable pub record_rows :
    Result (Unit {0}) → List RawEvent → List EventIngest → Counters → Counters × Result (Unit {0})
record_rows redis [] events counters = (counters, ok tt)
record_rows redis (row ∷ rows) events counters =
    (count_inserted (by_key (row ∷ rows) []) events counters, redis)

unfoldable pub finish_batch :
    Datetime
    → List EventIngest
    → Database × List RawEvent × ℕ
    → Counters × Result (Unit {0})
    → Counters × Result (Database × BatchIngestResponse)
finish_batch at events (db, rows, duplicate_count) (counters, err e) = (counters, err e)
finish_batch at events (db, rows, duplicate_count) (counters, ok t) =
    (count_duplicates duplicate_count counters, ok (db, respond db rows duplicate_count at events))

unfoldable pub ingest_batch_inserted :
    Result (Unit {0})
    → Datetime
    → List EventIngest
    → Result (Database × List RawEvent × ℕ)
    → Counters
    → Counters × Result (Database × BatchIngestResponse)
ingest_batch_inserted redis at events (err e) counters = (counters, err e)
ingest_batch_inserted redis at events (ok (db, rows, duplicate_count)) counters =
    finish_batch at events (db, rows, duplicate_count) (record_rows redis rows events counters)

unfoldable pub ingest_batch_known :
    List ℕ
    → Result (Unit {0})
    → (ℕ → ℕ)
    → Datetime
    → Datetime
    → List EventIngest
    → Database
    → Counters
    → Counters × Result (Database × BatchIngestResponse)
ingest_batch_known (merchant ∷ missing) redis uuid4 at now events db counters =
    (counters, err (merchant_not_found merchant))
ingest_batch_known [] redis uuid4 at now events db counters =
    ingest_batch_inserted redis at events (insert_batch uuid4 at now events db) counters

-- `ingest_batch`; which of several missing merchants the error names is Python's choice of an element
-- of a set, here the first
unfoldable pub ingest_batch :
    Result (Unit {0})
    → (ℕ → ℕ)
    → Datetime
    → Datetime
    → List EventIngest
    → Database
    → Counters
    → Counters × Result (Database × BatchIngestResponse)
ingest_batch redis uuid4 at now events db counters =
    ingest_batch_known (missing_merchant_ids (map (λ e. e.merchant_id) events) db) redis uuid4 at
      now events db counters
