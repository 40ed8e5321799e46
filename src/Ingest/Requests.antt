-- ===== src/Ingest/Requests.antt =====
-- Requests of POST /events, on every branch: the tables stay in agreement, and a retry is answered
-- with the event of the first request.
use analytics_pipeline.Prelude.{
  ℕ, String, Bool, true, false, none, get, String_discrete, ◌≡◌, refl, sym, ◌∙◌, ◌≤◌, arith, inl,
  inr, leb, if◌then◌else◌, Bool-cases, Option-cases,
}
use analytics_pipeline.Result.{Result, ok, err, numeric_out_of_range}
use analytics_pipeline.Moment.{Datetime}
use analytics_pipeline.Records.{RawEvent, EventIngest}
use analytics_pipeline.Database.{Database}
use analytics_pipeline.Ingest.Store.{
  max_integer, row_for, insert_event, insert_claimed, insert_rows, merchant_exists,
}
use analytics_pipeline.Ingest.Single.{IsKeyed, IsFresh, insert_event_claimed}
use analytics_pipeline.Ingest.Keys.{claimed-IsStored, insert_event-IsKeyed, stored-retry}
use analytics_pipeline.Ingest.Service.{
  Counters, EventIngestResponse, reply, ingest_event, ingest_inserted, ingested, finish_request,
  post_event,
}

-- an amount that does not fit raises, whatever else holds
insert_event-wide :
    (id : ℕ) (at now : Datetime) (event : EventIngest) (db : Database)
    → get String_discrete event.idempotency_key db.event_idempotency ≡ none
    → leb event.amount_cents max_integer ≡ false
    → insert_event id at now event db ≡ err numeric_out_of_range
unfolding insert_event insert_claimed insert_rows row_for
insert_event-wide id at now event db unclaimed wide = ground (arith, unclaimed, wide)

-- what holds before a request and after each insertion that succeeds holds after the request
finish_request-ingest_inserted :
    (P : Database → Type 0) (redis : Result (Unit {0})) (event_type : String) (before : Database)
    (result : Result (Database × RawEvent × Bool)) (counters : Counters)
    → P before
    → ((after : Database) (row : RawEvent) (duplicate : Bool)
        → result ≡ ok (after, row, duplicate)
        → P after)
    → P (finish_request before (ingest_inserted redis event_type result counters).1).0
unfolding finish_request ingest_inserted ingested
finish_request-ingest_inserted P redis event_type before (err e) counters p h = p
finish_request-ingest_inserted P redis event_type before (ok (after, row, true)) counters p h =
    h after row true refl
finish_request-ingest_inserted P (ok t) event_type before (ok (after, row, false)) counters p h =
    h after row false refl
finish_request-ingest_inserted P (err e) event_type before (ok (after, row, false)) counters p h = p

ok_database :
    {a b : Database} {row row' : RawEvent} {d d' : Bool}
    → Path (Result (Database × RawEvent × Bool)) (ok (a, row, d)) (ok (b, row', d'))
    → IsKeyed a
    → IsKeyed b
ok_database {a = a} {b = b} e k = let same : a ≡ b = ground arith in rw (← same) k

module _ (id : ℕ) (at now : Datetime) (event : EventIngest) (db : Database) where
  inserted-IsKeyed :
      IsKeyed db
      → IsFresh id db
      → (after : Database) → (row : RawEvent) → (duplicate : Bool)
      → insert_event id at now event db ≡ ok (after, row, duplicate)
      → IsKeyed after
  inserted-IsKeyed agree fresh after row duplicate e =
      elim (Bool-cases (leb event.amount_cents max_integer)) [
        | inl fits ↦
            let done = insert_event-IsKeyed id at now event db agree fresh (ground (arith, fits)) in
            ok_database (sym done.3 ∙ e) done.4
        | inr wide ↦
            elim (Option-cases (get String_discrete event.idempotency_key db.event_idempotency)) [
              | inl unclaimed ↦ ground (arith, insert_event-wide id at now event db unclaimed wide)
              | inr claim ↦
                  let old = claimed-IsStored id at now event db agree claim.0 claim.1 in
                  ok_database
                    (sym (insert_event_claimed id at now event db claim.0 old.0 claim.1 old.1) ∙ e)
                    agree
            ]
      ]

  -- Whatever a request carries, and whatever it is answered, the tables agree afterwards.
  pub post_event-IsKeyed :
      (redis : Result (Unit {0})) (counters : Counters)
      → IsKeyed db
      → IsFresh id db
      → IsKeyed (post_event redis id at now event db counters).1
  unfolding post_event ingest_event finish_request
  post_event-IsKeyed redis counters agree fresh =
      elim (Bool-cases (merchant_exists event.merchant_id db)) [
        | inl e ↦ rw e (
            finish_request-ingest_inserted IsKeyed redis _ db (insert_event id at now event db)
              counters agree (inserted-IsKeyed agree fresh))
        | inr e ↦ rw e agree
      ]

abbrev pub response_of : RawEvent → Bool → EventIngestResponse
response_of row duplicate = record {
  event_id = row.id;
  idempotency_key = row.idempotency_key;
  occurred_at = row.occurred_at;
  duplicate = duplicate;
}

module _ (id : ℕ) (at now : Datetime) (event : EventIngest) (db : Database) where
  pub post_event-duplicate :
      (redis : Result (Unit {0})) (counters : Counters) (row : RawEvent)
      → merchant_exists event.merchant_id db ≡ true
      → insert_event id at now event db ≡ ok (db, row, true)
      → ((post_event redis id at now event db counters).1 ≡ db)
        × ((post_event redis id at now event db counters).2 ≡ reply 200 (response_of row true))
  unfolding post_event ingest_event finish_request ingest_inserted ingested
  post_event-duplicate redis counters row known e = rw (known, e) (refl, refl)

  pub post_event-ok :
      (counters : Counters) (after : Database) (row : RawEvent) (duplicate : Bool)
      → merchant_exists event.merchant_id db ≡ true
      → insert_event id at now event db ≡ ok (after, row, duplicate)
      → ((post_event (ok tt) id at now event db counters).1 ≡ after)
        × ((post_event (ok tt) id at now event db counters).2
            ≡ reply (if duplicate then 200 else 202) (response_of row duplicate))
  unfolding post_event ingest_event finish_request ingest_inserted ingested
  post_event-ok counters after row true known e = rw (known, e) (refl, refl)
  post_event-ok counters after row false known e = rw (known, e) (refl, refl)

known_after :
    (merchant : ℕ) (after db : Database)
    → after.merchants ≡ db.merchants
    → merchant_exists merchant db ≡ true
    → merchant_exists merchant after ≡ true
unfolding merchant_exists
known_after merchant after db same known = rw same known

-- In tables that agree and with a fresh id, a payload of a known merchant whose amount fits is
-- answered with a row, 202 if the key is new and 200 if it is not, while Redis answers; and a later
-- request of a known merchant with the same key is answered 200 with that row, changes no table, and
-- needs no Redis.
pub post_event_retry :
    (redis : Result (Unit {0})) (id again : ℕ) (at now at' now' : Datetime)
    (event event' : EventIngest) (db : Database) (counters counters' : Counters)
    → IsKeyed db
    → IsFresh id db
    → event.amount_cents ≤ max_integer
    → merchant_exists event.merchant_id db ≡ true
    → merchant_exists event'.merchant_id db ≡ true
    → event'.idempotency_key ≡ event.idempotency_key
    → (after : Database) × (row : RawEvent) × (duplicate : Bool) × ((post_event
          (ok tt)
          id
          at
          now
          event
          db
          counters).1
        ≡ after)
      × ((post_event (ok tt) id at now event db counters).2
          ≡ reply (if duplicate then 200 else 202) (response_of row duplicate))
      × ((post_event redis again at' now' event' after counters').1 ≡ after)
      × ((post_event redis again at' now' event' after counters').2
          ≡ reply 200 (response_of row true))
post_event_retry redis id again at now at' now' event event' db counters counters' agree fresh fits
      known known' same =
    let first = insert_event-IsKeyed id at now event db agree fresh fits in
    let posted = post_event-ok id at now event db counters first.0 first.1 first.2 known first.3 in
    let retried =
      post_event-duplicate again at' now' event' first.0 redis counters' first.1
        (known_after event'.merchant_id first.0 db first.7 known')
        (stored-retry again at' now' event' first.0 first.1 (first.5 ∙ sym same) first.6) in
    (first.0, first.1, first.2, posted.0, posted.1, retried.0, retried.1)
