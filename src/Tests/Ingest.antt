-- ===== src/Tests/Ingest.antt =====
-- The write path at concrete inputs.
use analytics_pipeline.Prelude.{
  Bool, [], ◌∷◌, ◌+◌, none, get, update, contains, filter, ℕ_discrete, String_discrete, IsDistinct,
  ◌≡◌, refl, arith, true, false, if◌then◌else◌,
}
use analytics_pipeline.Result.{ok, err, ◌>>=◌, is_ok, redis_unavailable, unique_violation}
use analytics_pipeline.Moment.{Datetime, Datetime_discrete}
use analytics_pipeline.Records.{EventIngest, RawEvent, EventType, value}
use analytics_pipeline.Database.{Database, empty_database}
use analytics_pipeline.Worker.Batch.{ids}
use analytics_pipeline.Ingest.Store.{
  with_id, has_row, insert_rows, row_for, insert_claimed, insert_event, one, merchant_exists,
}
use analytics_pipeline.Ingest.Single.{IsKeyed, IsFresh}
use analytics_pipeline.Ingest.Service.{
  Counters, inc, count_event, ingested, ingest_inserted, ingest_event, reply, http_exception,
  raised, reply_error, finish_request, post_event,
}
use analytics_pipeline.Ingest.Requests.{response_of, post_event-IsKeyed, post_event_retry}
use analytics_pipeline.Ingest.Store.{missing_merchant_ids}
use analytics_pipeline.Prelude.{map}
use analytics_pipeline.Ingest.Respond.{BatchIngestResponse, ingest_batch}
use analytics_pipeline.Ingest.Resend.{answer, stored_answer, ingest_batch-claimed}
use analytics_pipeline.Ingest.Served.{
  keys, Served, fresh_start, request, Served-IsKeyed, Served-IsDistinct,
}
use analytics_pipeline.Ingest.Batch.{
  event_id_map, claim, returning, claim_keys, found, subscript, raw_values, insert_claims,
  insert_batch,
}
use analytics_pipeline.Ingest.Batch.Assigned
use analytics_pipeline.Ingest.Batch.Each.{insert_each, insert_batch-insert_each}
use analytics_pipeline.Ingest.Batch.Repeated.{insert_batch-repeated}
use analytics_pipeline.Tests.Data.{at}

unfoldable pub ingest_program : Unit {0}
unfolding get update contains filter ℕ_discrete String_discrete Datetime_discrete value with_id
    has_row insert_rows row_for insert_claimed insert_event one merchant_exists missing_merchant_ids
    inc count_event ingested ingest_inserted ingest_event reply_error finish_request post_event
    event_id_map claim returning claim_keys found subscript raw_values insert_claims insert_batch
    is_ok
ingest_program = tt

abbrev pub order : EventIngest
order = record {
  event_type = EventType.payment_confirmed;
  merchant_id = 7;
  amount_cents = 1999;
  currency = "EUR";
  idempotency_key = "order-17";
  client_timestamp = none;
  metadata = none;
}

-- the same key with another body
abbrev changed_order : EventIngest
changed_order = record order { amount_cents = 5 }

abbrev pub no_counts : Counters
no_counts = record { events_ingested = []; duplicate_events = [] }

abbrev pub empty : Database
empty = empty_database (7 ∷ [])

abbrev pub noon : Datetime
noon = at 12 0 0

-- a new event is counted even if Redis fails and the transaction is rolled back
redis_down : post_event (err redis_unavailable) 1 noon noon order empty no_counts ≡ (
  record { events_ingested = ("PAYMENT_CONFIRMED", 1) ∷ []; duplicate_events = [] },
  empty,
  raised redis_unavailable,
)
unfolding ingest_program
redis_down = refl

unknown_merchant :
    post_event (ok tt) 1 noon noon (record order { merchant_id = 8 }) empty no_counts
    ≡ (no_counts, empty, http_exception 404)
unfolding ingest_program
unknown_merchant = refl

-- two events with one new key in one batch
repeated :
    insert_batch (λ i. 10 + i) noon noon (order ∷ changed_order ∷ []) empty ≡ err unique_violation
unfolding ingest_program
repeated = refl

served : Served (7 ∷ []) (post_event (ok tt) 1 noon noon order empty no_counts).1
unfolding ingest_program
served = request (ok tt) 1 noon noon order no_counts fresh_start refl

pub empty-IsKeyed : IsKeyed empty
empty-IsKeyed = Served-IsKeyed (7 ∷ []) empty fresh_start

empty-IsFresh : IsFresh 1 empty
unfolding ingest_program
empty-IsFresh = refl

post_event-IsKeyed_example :
    IsKeyed (post_event (err redis_unavailable) 1 noon noon order empty no_counts).1
post_event-IsKeyed_example =
    post_event-IsKeyed 1 noon noon order empty (err redis_unavailable) no_counts empty-IsKeyed
      empty-IsFresh

Served-IsDistinct_example :
    IsDistinct String_discrete
      (keys (post_event (ok tt) 1 noon noon order empty no_counts).1.raw_events)
    × IsDistinct ℕ_discrete
        (ids (post_event (ok tt) 1 noon noon order empty no_counts).1.raw_events)
Served-IsDistinct_example =
    Served-IsDistinct (7 ∷ []) (post_event (ok tt) 1 noon noon order empty no_counts).1 served

post_event_retry_example :
    (after : Database) × (row : RawEvent) × (duplicate : Bool) × ((post_event
        (ok tt)
        1
        noon
        noon
        order
        empty
        no_counts).1
      ≡ after)
    × ((post_event (ok tt) 1 noon noon order empty no_counts).2
        ≡ reply (if duplicate then 200 else 202) (response_of row duplicate))
    × ((post_event
          (err redis_unavailable)
          2
          (at 12 5 0)
          (at 12 5 0)
          changed_order
          after
          no_counts).1
        ≡ after)
    × ((post_event
          (err redis_unavailable)
          2
          (at 12 5 0)
          (at 12 5 0)
          changed_order
          after
          no_counts).2
        ≡ reply 200 (response_of row true))
unfolding ingest_program
post_event_retry_example =
    post_event_retry (err redis_unavailable) 1 2 noon noon (at 12 5 0) (at 12 5 0) order
      changed_order empty no_counts no_counts empty-IsKeyed empty-IsFresh (omega arith) refl refl
      refl

insert_batch-repeated_example :
    is_ok (insert_batch (λ i. 10 + i) noon noon (order ∷ changed_order ∷ []) empty) ≡ false
unfolding ingest_program
insert_batch-repeated_example =
    insert_batch-repeated (λ i. 10 + i) noon noon order (changed_order ∷ []) empty refl refl

-- a shop whose order was stored
abbrev shop : Database
shop = (post_event (ok tt) 1 noon noon order empty no_counts).1

ingest_batch-claimed_example :
    (response : BatchIngestResponse) × ((ingest_batch
        (err redis_unavailable)
        (λ i. 10 + i)
        noon
        noon
        (order ∷ changed_order ∷ [])
        shop
        no_counts).1
      ≡ ok (shop, response))
    × (response.accepted ≡ 0)
    × (response.duplicates ≡ 2)
    × (map answer response.events ≡ map (stored_answer shop) (order ∷ changed_order ∷ []))
unfolding ingest_program
ingest_batch-claimed_example =
    ingest_batch-claimed (err redis_unavailable) (λ i. 10 + i) noon noon
      (order ∷ changed_order ∷ []) shop no_counts (Served-IsKeyed (7 ∷ []) shop served) refl
      ((1, refl), ((1, refl), tt))

-- another order beside the first
abbrev second_order : EventIngest
second_order = record order { idempotency_key = "order-18" }

keys-IsDistinct : IsDistinct String_discrete (Assigned.keys (order ∷ second_order ∷ []))
unfolding ingest_program
keys-IsDistinct = (refl, (refl, tt))

insert_batch-insert_each_example :
    insert_batch (λ i. 10 + i) noon noon (order ∷ second_order ∷ []) empty ≡ (
      insert_each (λ i. 10 + i) 0 noon noon (order ∷ second_order ∷ []) empty
      >>= (λ each. ok (each.0, each.1, 0)))
unfolding ingest_program
insert_batch-insert_each_example =
    insert_batch-insert_each (λ i. 10 + i) noon noon (order ∷ second_order ∷ []) empty
      keys-IsDistinct (refl, (refl, tt))
