-- ===== src/Ingest/Batch.antt =====
-- `insert_batch` of app/repositories/event_repository.py.
pub mod Claims
pub mod Repeated
pub mod Assigned
pub mod Each
use analytics_pipeline.Prelude.{
  ℕ, String, Bool, true, false, List, [], ◌∷◌, ◌++◌, Option, none, some, map, get, update, contains,
  filter, ◌-◌, ◌+◌, if◌then◌else◌, String_discrete, Dict, length,
}
use analytics_pipeline.Result.{Result, ok, err, key_error, ◌>>=◌}
use analytics_pipeline.Moment.{Datetime}
use analytics_pipeline.Records.{RawEvent, EventIngest}
use analytics_pipeline.Database.{Database}
use analytics_pipeline.Ingest.Store.{insert_rows, row_for}

-- `event_id_map`: the event at position i draws the UUID `uuid4 i`, and the last event of a key
-- gives the key its id
unfoldable pub event_id_map : (ℕ → ℕ) → ℕ → List EventIngest → Dict String ℕ → Dict String ℕ
event_id_map uuid4 i [] ids = ids
event_id_map uuid4 i (e ∷ es) ids =
    event_id_map uuid4 (1 + i) es (update String_discrete e.idempotency_key (λ _. uuid4 i) ids)

-- the id that a key has after the conflict clause
unfoldable pub claim : ℕ → Option ℕ → ℕ
claim id none = id
claim id (some existing) = existing

-- RETURNING gives the rows that were inserted only
unfoldable pub returning : String → Option ℕ → List String → List String
returning key none claimed = key ∷ claimed
returning key (some _) claimed = claimed

-- INSERT INTO event_idempotency ... ON CONFLICT DO NOTHING RETURNING idempotency_key
unfoldable pub claim_keys : Dict String ℕ → Dict String ℕ → Dict String ℕ × List String
claim_keys [] table = (table, [])
claim_keys ((key, id) ∷ rows) table =
    let (table', claimed) = claim_keys rows (update String_discrete key (claim id) table) in
    (table', returning key (get String_discrete key table) claimed)

unfoldable pub found : Option ℕ → Result ℕ
found none = err key_error
found (some id) = ok id

-- ids[key]
unfoldable pub subscript : String → Dict String ℕ → Result ℕ
subscript key ids = found (get String_discrete key ids)

-- `raw_values`: the rows of the events, each with the id of its key
unfoldable pub raw_values :
    Dict String ℕ → Datetime → Datetime → List EventIngest → Result (List RawEvent)
raw_values ids occurred_at now [] = ok []
raw_values ids occurred_at now (e ∷ es) = do
  id ← subscript e.idempotency_key ids
  rows ← raw_values ids occurred_at now es
  ok (row_for id occurred_at now e ∷ rows)

-- what `insert_batch` goes on with, from the keys that it claimed
unfoldable pub insert_claims :
    Dict String ℕ
    → List String
    → Datetime
    → Datetime
    → List EventIngest
    → Database
    → Result (Database × List RawEvent × ℕ)
insert_claims ids [] occurred_at now events db = ok (db, [], length events)
insert_claims ids (key ∷ keys) occurred_at now events db = do
  let claimed = key ∷ keys
  let new_events = filter (λ e. contains String_discrete e.idempotency_key claimed) events
  inserted ← raw_values ids occurred_at now new_events
  raw ← insert_rows inserted db.raw_events
  ok (record db { raw_events = raw }, inserted, length events - length claimed)

-- `insert_batch`: the tables afterwards, the inserted rows and the number of duplicates
unfoldable pub insert_batch :
    (ℕ → ℕ)
    → Datetime
    → Datetime
    → List EventIngest
    → Database
    → Result (Database × List RawEvent × ℕ)
insert_batch uuid4 occurred_at now events db =
    let ids = event_id_map uuid4 0 events [] in
    let (table, claimed) = claim_keys ids db.event_idempotency in
    insert_claims ids claimed occurred_at now events (record db { event_idempotency = table })
