-- ===== src/Load/Faults.antt =====
-- `run_fault_injection` of scripts/load_simulator.py against the modelled API: the requests that it sends,
-- and the statuses that it asserts. Its queries of /health and /leaderboard assert nothing.
use analytics_pipeline.Prelude.{
  ℕ, String, ◌≤◌, ◌≢◌, Bool, true, false, List, [], ◌∷◌, ◌++◌, none, get, get-update, contains,
  contains-append, if_neg, ℕ_discrete, String_discrete, ◌==◌, ◌&&◌, if◌then◌else◌, ◌≡◌, refl, ap,
  ◌∙◌, arith,
}
use analytics_pipeline.Result.{Result, ok}
use analytics_pipeline.Moment.{Datetime}
use analytics_pipeline.Records.{RawEvent, EventIngest}
use analytics_pipeline.Database.{Database}
use analytics_pipeline.Worker.Batch.{ids}
use analytics_pipeline.Ingest.Store.{max_integer, merchant_exists, row_for}
use analytics_pipeline.Ingest.Single.{IsKeyed, IsFresh, with_event, insert_event_new}
use analytics_pipeline.Ingest.Service.{
  Counters, Reply, reply, http_exception, raised, ingest_event, finish_request, reply_error,
  post_event,
}
use analytics_pipeline.Ingest.Requests.{post_event-ok, post_event_retry}

-- what the API keeps
pub record Server : Type 0 where
  pub database : Database
  pub counters : Counters

-- what a request meets: the new event's id, the time, and what Redis answers
pub record Arrival : Type 0 where
  pub event_id : ℕ
  pub at : Datetime
  pub now : Datetime
  pub redis : Result (Unit {0})

-- r.status_code; an exception that no handler catches is a 500
unfoldable pub status_code : Reply → ℕ
status_code (reply status response) = status
status_code (http_exception status) = status
status_code (raised e) = 500

-- client.post(f"{base_url}/events", json=event)
unfoldable pub post : Arrival → EventIngest → Server → Server × ℕ
post a event server =
    let (counters, database, answer) =
      post_event a.redis a.event_id a.at a.now event server.database server.counters in
    (record { database = database; counters = counters }, status_code answer)

-- the same event twice, a late event, and an event of a merchant that nobody knows; `false` stands for
-- an AssertionError
unfoldable pub run_fault_injection :
    (a1 a2 a3 a4 : Arrival)
    → (event late_event bad_event : EventIngest) → ℕ
    → Server
    → Server × Bool
run_fault_injection a1 a2 a3 a4 event late_event bad_event unknown server =
    let (server1, r1) = post a1 event server in
    let (server2, r2) = post a2 event server1 in
    let (server3, late) = post a3 late_event server2 in
    let (server4, bad) = post a4 (record bad_event { merchant_id = unknown }) server3 in
    if r1 == 202 && r2 == 200
    then (if late == 202 then (server4, bad == 404) else (server3, false))
    else (server2, false)

module _ (a : Arrival) (event : EventIngest) (server : Server) where
  post_new :
      a.redis ≡ ok tt
      → get String_discrete event.idempotency_key server.database.event_idempotency ≡ none
      → IsFresh a.event_id server.database
      → event.amount_cents ≤ max_integer
      → merchant_exists event.merchant_id server.database ≡ true
      → ((post a event server).0.database ≡ with_event a.event_id a.at a.now event server.database)
        × ((post a event server).1 ≡ 202)
  unfolding post
  post_new answers unclaimed fresh fits known =
      let posted =
        post_event-ok a.event_id a.at a.now event server.database server.counters _ _ false known
          (insert_event_new a.event_id a.at a.now event server.database unclaimed fresh fits) in
      rw (answers) (posted.0, unfold status_code in ap status_code posted.1)

  post_unknown :
      merchant_exists event.merchant_id server.database ≡ false → (post a event server).1 ≡ 404
  unfolding post post_event ingest_event finish_request reply_error status_code
  post_unknown h = rw (h) refl

-- the first request again
post_again :
    (a b : Arrival) (event : EventIngest) (server : Server)
    → a.redis ≡ ok tt
    → IsKeyed server.database
    → IsFresh a.event_id server.database
    → event.amount_cents ≤ max_integer
    → merchant_exists event.merchant_id server.database ≡ true
    → let first = (post a event server).0 in
      ((post b event first).0.database ≡ first.database) × ((post b event first).1 ≡ 200)
unfolding post status_code
post_again a b event server answers agree fresh fits known =
    let counters =
      (post_event (ok tt) a.event_id a.at a.now event server.database server.counters).0 in
    let (after, row, duplicate, done, reply1, kept, reply2) =
      post_event_retry b.redis a.event_id b.event_id a.at a.now b.at b.now event event
        server.database server.counters counters agree fresh fits known known refl in
    rw (answers, done, kept, reply2) (refl, refl)

-- What the demonstration asks of the server before it starts: the tables agree, the keys of the first
-- and the third request are new and differ, so do their ids, their merchants are known, their
-- amounts fit, and Redis answers to them. The fourth merchant is unknown.
pub record IsReady (a1 a3 : Arrival) (event late_event : EventIngest) (unknown : ℕ)
    (server : Server) : Type 0 where
  pub agree : IsKeyed server.database
  pub event_unclaimed :
      get String_discrete event.idempotency_key server.database.event_idempotency ≡ none
  pub late_unclaimed :
      get String_discrete late_event.idempotency_key server.database.event_idempotency ≡ none
  pub keys_differ : event.idempotency_key ≢ late_event.idempotency_key
  pub event_fresh : IsFresh a1.event_id server.database
  pub late_fresh : IsFresh a3.event_id server.database
  pub ids_differ : a1.event_id ≢ a3.event_id
  pub event_fits : event.amount_cents ≤ max_integer
  pub late_fits : late_event.amount_cents ≤ max_integer
  pub event_known : merchant_exists event.merchant_id server.database ≡ true
  pub late_known : merchant_exists late_event.merchant_id server.database ≡ true
  pub stranger : merchant_exists unknown server.database ≡ false
  pub event_answered : a1.redis ≡ ok tt
  pub late_answered : a3.redis ≡ ok tt

-- another key and another id are as new after the event as before
with_event-unclaimed :
    (id : ℕ) (at now : Datetime) (event : EventIngest) (key : String) (db : Database)
    → event.idempotency_key ≢ key
    → get String_discrete key db.event_idempotency ≡ none
    → get String_discrete key (with_event id at now event db).event_idempotency ≡ none
unfolding with_event
with_event-unclaimed id at now event key db other h =
    get-update String_discrete event.idempotency_key key (λ _. id) db.event_idempotency
    ∙ if_neg (String_discrete event.idempotency_key key) other _ _
    ∙ h

ids-append : (xs : List RawEvent) (e : RawEvent) → ids (xs ++ e ∷ []) ≡ ids xs ++ e.id ∷ []
ids-append [] e = refl
ids-append (x ∷ xs) e = ap (◌∷◌ x.id) (ids-append xs e)

with_event-IsFresh :
    (id : ℕ) (at now : Datetime) (event : EventIngest) (other : ℕ) (db : Database)
    → id ≢ other
    → IsFresh other db
    → IsFresh other (with_event id at now event db)
unfolding with_event row_for contains
with_event-IsFresh id at now event other db differ h =
    ap (contains ℕ_discrete other) (ids-append db.raw_events (row_for id at now event))
    ∙ contains-append ℕ_discrete other (ids db.raw_events) (id ∷ [])
    ∙ ground (arith, h, differ)

merchant_exists-with_event :
    (id : ℕ) (at now : Datetime) (event : EventIngest) (merchant : ℕ) (db : Database)
    → merchant_exists merchant (with_event id at now event db) ≡ merchant_exists merchant db
unfolding merchant_exists with_event
merchant_exists-with_event id at now event merchant db = refl

-- If the server is ready for it, the demonstration passes, whatever Redis answers to the second and the
-- fourth request.
pub run_fault_injection_passes :
    (a1 a2 a3 a4 : Arrival) (event late_event bad_event : EventIngest) (unknown : ℕ)
    (server : Server)
    → IsReady a1 a3 event late_event unknown server
    → (run_fault_injection a1 a2 a3 a4 event late_event bad_event unknown server).1 ≡ true
unfolding run_fault_injection
run_fault_injection_passes a1 a2 a3 a4 event late_event bad_event unknown server h =
    let first =
      post_new a1 event server h.event_answered h.event_unclaimed h.event_fresh h.event_fits
        h.event_known in
    let again =
      post_again a1 a2 event server h.event_answered h.agree h.event_fresh h.event_fits
        h.event_known in
    let tables : (post a2 event (post a1 event server).0).0.database
        ≡ with_event a1.event_id a1.at a1.now event server.database =
      again.0 ∙ first.0 in
    let server2 = (post a2 event (post a1 event server).0).0 in
    let late =
      post_new a3 late_event server2 h.late_answered
        (rw (tables) (
          with_event-unclaimed a1.event_id a1.at a1.now event late_event.idempotency_key
            server.database h.keys_differ h.late_unclaimed))
        (rw (tables) (
          with_event-IsFresh a1.event_id a1.at a1.now event a3.event_id server.database h.ids_differ
            h.late_fresh))
        h.late_fits
        (rw (tables) (
          merchant_exists-with_event a1.event_id a1.at a1.now event late_event.merchant_id
            server.database
          ∙ h.late_known)) in
    let server3 = (post a3 late_event server2).0 in
    let unknown_still : merchant_exists unknown server3.database ≡ false = rw (late.0) (
      merchant_exists-with_event a3.event_id a3.at a3.now late_event unknown server2.database
      ∙ ap (merchant_exists unknown) tables
      ∙ merchant_exists-with_event a1.event_id a1.at a1.now event unknown server.database
      ∙ h.stranger) in
    let bad = post_unknown a4 (record bad_event { merchant_id = unknown }) server3 unknown_still in
    rw (first.1, again.1, late.1, bad) refl
