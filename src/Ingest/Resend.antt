-- ===== src/Ingest/Resend.antt =====
-- `ingest_batch` on a batch that was sent before.
use analytics_pipeline.Prelude.{
  ℕ, String, List, [], ◌∷◌, Bool, true, Option, some, get, map, contains, filter-All_self, length,
  All, All-contains, All-both, String_discrete, ◌≡◌, refl,
}
use analytics_pipeline.Result.{Result, ok}
use analytics_pipeline.Moment.{Datetime}
use analytics_pipeline.Records.{RawEvent, EventIngest}
use analytics_pipeline.Database.{Database}
use analytics_pipeline.Ingest.Store.{by_key, get_by_idempotency_keys, missing_merchant_ids}
use analytics_pipeline.Ingest.Single.{IsKeyed}
use analytics_pipeline.Ingest.Service.{Counters, EventIngestResponse}
use analytics_pipeline.Ingest.Respond.{
  BatchIngestResponse, responses, respond_to, duplicate_response, respond, is_missing, finish_batch,
  record_rows, ingest_batch_inserted, ingest_batch_known, ingest_batch,
}
use analytics_pipeline.Ingest.Answers.{
  IsClaimed, get_by_idempotency_keys-claimed, insert_batch-claimed,
}

-- what a response says of its event
abbrev pub answer : EventIngestResponse → String × Option ℕ × Bool
answer r = (r.idempotency_key, some r.event_id, r.duplicate)

-- the id that the event's key has
abbrev pub stored_answer : Database → EventIngest → String × Option ℕ × Bool
stored_answer db e =
    (e.idempotency_key, get String_discrete e.idempotency_key db.event_idempotency, true)

duplicate_response-answer :
    (db : Database) (at : Datetime) (e : EventIngest) (row : RawEvent)
    → get String_discrete e.idempotency_key db.event_idempotency ≡ some row.id
    → answer (duplicate_response at e (some row)) ≡ stored_answer db e
unfolding duplicate_response
duplicate_response-answer db at e row h = rw h refl

responses-claimed :
    (keys : List String) (at : Datetime) (db : Database) (events : List EventIngest)
    → IsKeyed db
    → All
        (λ e.
          IsClaimed db.event_idempotency e.idempotency_key
          × (contains String_discrete e.idempotency_key keys ≡ true))
        events
    → map answer (responses [] (get_by_idempotency_keys keys db) at events)
      ≡ map (stored_answer db) events
unfolding responses respond_to get
responses-claimed keys at db [] agree h = refl
responses-claimed keys at db (e ∷ es) agree h =
    let row = get_by_idempotency_keys-claimed keys e.idempotency_key db agree (h.0).0 (h.0).1 in
    rw
      (
        row.1,
        duplicate_response-answer db at e row.0 row.2,
        responses-claimed keys at db es agree h.1,
      )
      refl

trivial : (events : List EventIngest) → All (λ e. true ≡ true) events
trivial [] = tt
trivial (e ∷ es) = (refl, trivial es)

-- In tables that agree, a batch of known merchants, all of whose keys have an event already, changes
-- no table and needs no Redis: nothing is accepted, every event is a duplicate, and each is answered
-- with the id of the stored event.
pub ingest_batch-claimed :
    (redis : Result (Unit {0})) (uuid4 : ℕ → ℕ) (at now : Datetime) (events : List EventIngest)
    (db : Database) (counters : Counters)
    → IsKeyed db
    → missing_merchant_ids (map (λ e. e.merchant_id) events) db ≡ []
    → All (λ e. IsClaimed db.event_idempotency e.idempotency_key) events
    → (response : BatchIngestResponse) × ((ingest_batch redis uuid4 at now events db counters).1
        ≡ ok (db, response))
      × (response.accepted ≡ 0)
      × (response.duplicates ≡ length events)
      × (map answer response.events ≡ map (stored_answer db) events)
unfolding ingest_batch ingest_batch_known ingest_batch_inserted finish_batch record_rows respond
    by_key is_missing get
ingest_batch-claimed redis uuid4 at now events db counters agree known claimed =
    let keys = map (λ (e : EventIngest). e.idempotency_key) events in
    let covered =
      All-both _ _ events claimed
        (All-contains String_discrete (λ (e : EventIngest). e.idempotency_key) events) in
    let all_missing = filter-All_self (λ (e : EventIngest). true) events (trivial events) in
    (
      respond db [] (length events) at events,
      rw (known, insert_batch-claimed uuid4 at now events db claimed) refl,
      refl,
      refl,
      rw all_missing (responses-claimed keys at db events agree covered),
    )
