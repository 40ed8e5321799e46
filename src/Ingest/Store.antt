-- ===== src/Ingest/Store.antt =====
-- The statements of app/repositories/event_repository.py on raw_events, event_idempotency and
-- merchants.
use analytics_pipeline.Prelude.{
  ℕ, String, Bool, true, false, List, [], ◌∷◌, ◌++◌, Option, none, some, get, update, contains,
  filter, ite, leb, ◌-◌, ◌^◌, not, if◌then◌else◌, ℕ_discrete, String_discrete, Dict, take, sort_by,
}
use analytics_pipeline.Result.{
  Result, ok, err, unique_violation, numeric_out_of_range, not_one_row, ◌>>=◌,
}
use analytics_pipeline.Moment.{Datetime, Datetime_discrete, at_most}
use analytics_pipeline.Records.{RawEvent, EventIngest, value}
use analytics_pipeline.Database.{Database}

-- the largest value of an INTEGER column
abbrev pub max_integer : ℕ
max_integer = 2 ^ 31 - 1

-- `.scalars().one()`
unfoldable pub one : List RawEvent → Result RawEvent
one [] = err not_one_row
one (e ∷ []) = ok e
one (e ∷ _ ∷ _) = err not_one_row

-- SELECT ... WHERE id = :id
unfoldable pub with_id : ℕ → List RawEvent → List RawEvent
with_id id [] = []
with_id id (e ∷ es) = ite (ℕ_discrete e.id id) (e ∷ with_id id es) (with_id id es)

-- a row with the primary key (id, occurred_at)
unfoldable pub has_row : ℕ → Datetime → List RawEvent → Bool
has_row id at [] = false
has_row id at (e ∷ es) =
    ite (ℕ_discrete e.id id) (ite (Datetime_discrete e.occurred_at at) true (has_row id at es))
      (has_row id at es)

-- INSERT INTO raw_events VALUES ...: all the rows or none
unfoldable pub insert_rows : List RawEvent → List RawEvent → Result (List RawEvent)
insert_rows [] raw = ok raw
insert_rows (row ∷ rows) raw =
    let rest = insert_rows rows (raw ++ row ∷ []) in
    if leb row.amount_cents max_integer
    then (if has_row row.id row.occurred_at raw then err unique_violation else rest)
    else err numeric_out_of_range

-- the row of an event; `now` is the database's NOW(), which is the time of the transaction
unfoldable pub row_for : ℕ → Datetime → Datetime → EventIngest → RawEvent
row_for event_id occurred_at now event = record {
  id = event_id;
  event_type = value event.event_type;
  merchant_id = event.merchant_id;
  amount_cents = event.amount_cents;
  currency = event.currency;
  idempotency_key = event.idempotency_key;
  occurred_at = occurred_at;
  client_timestamp = event.client_timestamp;
  metadata = event.metadata;
  created_at = now;
}

-- what `insert_event` goes on with: the event id that the key already has, if it has one
unfoldable pub insert_claimed :
    Option ℕ
    → ℕ
    → Datetime
    → Datetime
    → EventIngest
    → Database
    → Result (Database × RawEvent × Bool)
insert_claimed (some existing_id) event_id occurred_at now event db = do
  existing_row ← one (with_id existing_id db.raw_events)
  ok (db, existing_row, true)
insert_claimed none event_id occurred_at now event db = do
  let row = row_for event_id occurred_at now event
  raw ← insert_rows (row ∷ []) db.raw_events
  ok (
    record db {
      event_idempotency =
          update String_discrete event.idempotency_key (λ _. event_id) db.event_idempotency;
      raw_events = raw;
    },
    row,
    false,
  )

-- `insert_event`; `event_id` is the uuid4() that it draws
unfoldable pub insert_event :
    ℕ → Datetime → Datetime → EventIngest → Database → Result (Database × RawEvent × Bool)
insert_event event_id occurred_at now event db =
    insert_claimed (get String_discrete event.idempotency_key db.event_idempotency) event_id
      occurred_at now event db

-- `merchant_exists`
unfoldable pub merchant_exists : ℕ → Database → Bool
merchant_exists id db = contains ℕ_discrete id db.merchants

-- `missing_merchant_ids`: the ids, as a set, that are not in merchants
unfoldable pub missing_merchant_ids : List ℕ → Database → List ℕ
missing_merchant_ids ids db = filter (λ id. not (contains ℕ_discrete id db.merchants)) ids

-- `get_by_idempotency_keys`: a dict over the selected rows, where a later row replaces an earlier
unfoldable pub by_key : List RawEvent → Dict String RawEvent → Dict String RawEvent
by_key [] d = d
by_key (e ∷ es) d = by_key es (update String_discrete e.idempotency_key (λ _. e) d)

unfoldable pub get_by_idempotency_keys : List String → Database → Dict String RawEvent
get_by_idempotency_keys keys db =
    by_key (filter (λ e. contains String_discrete e.idempotency_key keys) db.raw_events) []

-- ORDER BY occurred_at DESC
unfoldable pub newest_first : RawEvent → RawEvent → Bool
newest_first a b = at_most b.occurred_at a.occurred_at

-- `get_recent_events`
unfoldable pub get_recent_events : ℕ → Database → List RawEvent
get_recent_events limit db = take limit (sort_by newest_first db.raw_events)
