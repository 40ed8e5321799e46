-- ===== src/Ingest/Keys.antt =====
-- `insert_event` keeps the two tables in agreement, and a retry gets the stored event back.
use analytics_pipeline.Prelude.{
  ℕ, String, Bool, true, false, List, [], ◌∷◌, ◌++◌, none, some, get, update, get-update, contains,
  All, All-map, IsDistinct, IsDistinct-append, ℕ_discrete, String_discrete, ◌≡◌, ◌≢◌, refl, ◌≤◌,
  arith, inl, inr, Option-cases,
}
use mathlib.Core.List.{map-append}
use analytics_pipeline.Result.{ok}
use analytics_pipeline.Moment.{Datetime}
use analytics_pipeline.Records.{RawEvent, EventIngest}
use analytics_pipeline.Database.{Database}
use analytics_pipeline.Worker.Batch.{ids}
use analytics_pipeline.Ingest.Store.{max_integer, with_id, row_for, insert_event}
use analytics_pipeline.Ingest.Single.{
  IsKeyed, IsFresh, with_event, with_id-fresh, with_id-append, insert_event_new,
  insert_event_claimed,
}

-- an event whose key has its own id in a table keeps it when a key without one is claimed
keyed-update :
    (key : String) (id : ℕ) (d : List (String × ℕ)) (e : RawEvent)
    → get String_discrete key d ≡ none
    → get String_discrete e.idempotency_key d ≡ some e.id
    → get String_discrete e.idempotency_key (update String_discrete key (λ _. id) d) ≡ some e.id
keyed-update key id d e unclaimed h =
    ground (arith, get-update String_discrete key e.idempotency_key (λ _. id) d)

All-append_one :
    (P : RawEvent → Type 0) (xs : List RawEvent) (x : RawEvent)
    → All P xs
    → P x
    → All P (xs ++ x ∷ [])
All-append_one P [] x h p = (p, tt)
All-append_one P (y ∷ ys) x h p = (h.0, All-append_one P ys x h.1 p)

with_id-id : (i : ℕ) (row : RawEvent) (raw : List RawEvent) → with_id i raw ≡ row ∷ [] → row.id ≡ i
unfolding with_id
with_id-id i row [] h = ground arith
with_id-id i row (e ∷ es) h = ground (arith, with_id-id i row es)

-- The row is what its key and its id stand for.
pub record IsStored (row : RawEvent) (db : Database) : Type 0 where
  pub claim : get String_discrete row.idempotency_key db.event_idempotency ≡ some row.id
  pub found : with_id row.id db.raw_events ≡ row ∷ []

module _ (id : ℕ) (at now : Datetime) (event : EventIngest) (db : Database) where
  -- an id that has one row is not the new one, and its row is still the only one
  with_id-old :
      (i : ℕ) (row : RawEvent)
      → IsFresh id db
      → with_id i db.raw_events ≡ row ∷ []
      → with_id i (with_event id at now event db).raw_events ≡ row ∷ []
  unfolding with_event with_id row_for
  with_id-old i row fresh found = ground (
    arith,
    with_id-fresh id db.raw_events fresh,
    with_id-append i db.raw_events (row_for id at now event ∷ []),
  )

  with_id-new :
      IsFresh id db
      → with_id id (with_event id at now event db).raw_events ≡ row_for id at now event ∷ []
  unfolding with_event with_id row_for
  with_id-new fresh = ground (
    arith,
    with_id-fresh id db.raw_events fresh,
    with_id-append id db.raw_events (row_for id at now event ∷ []),
  )

  ids-IsDistinct :
      IsKeyed db
      → IsFresh id db
      → IsDistinct ℕ_discrete (ids (with_event id at now event db).raw_events)
  unfolding with_event contains row_for
  ids-IsDistinct agree fresh =
      rw (map-append (λ (e : RawEvent). e.id) db.raw_events (row_for id at now event ∷ [])) (
        IsDistinct-append ℕ_discrete (ids db.raw_events) (id ∷ []) agree.distinct (refl, tt)
          (λ x m. ground arith))

  claim_same :
      (key : String) (i : ℕ)
      → get String_discrete key (with_event id at now event db).event_idempotency ≡ some i
      → event.idempotency_key ≡ key
      → id ≡ i
  unfolding with_event
  claim_same key i h p =
      ground
        (arith, get-update String_discrete event.idempotency_key key (λ _. id) db.event_idempotency)

  claim_other :
      (key : String) (i : ℕ)
      → get String_discrete key (with_event id at now event db).event_idempotency ≡ some i
      → event.idempotency_key ≢ key
      → get String_discrete key db.event_idempotency ≡ some i
  unfolding with_event
  claim_other key i h p =
      ground
        (arith, get-update String_discrete event.idempotency_key key (λ _. id) db.event_idempotency)

  with_event_claimed :
      IsKeyed db
      → IsFresh id db
      → (key : String) (i : ℕ)
      → get String_discrete key (with_event id at now event db).event_idempotency ≡ some i
      → (row : RawEvent) × (with_id i (with_event id at now event db).raw_events ≡ row ∷ [])
        × (row.idempotency_key ≡ key)
  unfolding with_event with_id row_for
  with_event_claimed agree fresh key i h = elim (String_discrete event.idempotency_key key) [
    | yes p ↦ (row_for id at now event, rw (← claim_same key i h p) (with_id-new fresh), p)
    | no p ↦
        let old = agree.claimed key i (claim_other key i h p) in
        (old.0, with_id-old i old.0 fresh old.1, old.2)
  ]

  with_event-IsKeyed :
      IsKeyed db
      → get String_discrete event.idempotency_key db.event_idempotency ≡ none
      → IsFresh id db
      → IsKeyed (with_event id at now event db)
  unfolding with_event row_for contains
  with_event-IsKeyed agree unclaimed fresh = record {
    distinct = ids-IsDistinct agree fresh;
    claimed = with_event_claimed agree fresh;
    keyed =
        All-append_one _ db.raw_events _
          (All-map db.raw_events
            (λ e. keyed-update event.idempotency_key id db.event_idempotency e unclaimed)
            agree.keyed)
          ground
          (
            arith,
            get-update String_discrete event.idempotency_key event.idempotency_key (λ _. id)
                db.event_idempotency,
          );
  }

  with_event-IsStored :
      IsFresh id db → IsStored (row_for id at now event) (with_event id at now event db)
  unfolding with_event row_for
  with_event-IsStored fresh = record {
    claim = ground (
      arith,
      get-update String_discrete event.idempotency_key event.idempotency_key (λ _. id)
          db.event_idempotency,
    );
    found = with_id-new fresh;
  }

  pub claimed-IsStored :
      IsKeyed db
      → (i : ℕ) → get String_discrete event.idempotency_key db.event_idempotency ≡ some i
      → (row : RawEvent) × (with_id i db.raw_events ≡ row ∷ [])
        × (row.idempotency_key ≡ event.idempotency_key)
        × IsStored row db
  claimed-IsStored agree i e =
      let row = agree.claimed event.idempotency_key i e in
      let same = with_id-id i row.0 db.raw_events row.1 in
      (row.0, row.1, row.2, record { claim = ground arith; found = ground arith })

  -- An event that fits is accepted, whether its key is new or not: the tables still agree, and the
  -- row that comes back carries the key and is stored under it.
  pub insert_event-IsKeyed :
      IsKeyed db
      → IsFresh id db
      → event.amount_cents ≤ max_integer
      → (after : Database) × (row : RawEvent) × (duplicate : Bool) × (insert_event id at now event
            db
          ≡ ok (after, row, duplicate))
        × IsKeyed after
        × (row.idempotency_key ≡ event.idempotency_key)
        × IsStored row after
        × (after.merchants ≡ db.merchants)
  unfolding row_for with_event
  insert_event-IsKeyed agree fresh fits =
      elim (Option-cases (get String_discrete event.idempotency_key db.event_idempotency)) [
        | inl e ↦ (
          with_event id at now event db,
          row_for id at now event,
          false,
          insert_event_new id at now event db e fresh fits,
          with_event-IsKeyed agree e fresh,
          refl,
          with_event-IsStored fresh,
          refl,
        )
        | inr e ↦
            let old = claimed-IsStored agree e.0 e.1 in
            (
              db,
              old.0,
              true,
              insert_event_claimed id at now event db e.0 old.0 e.1 old.1,
              agree,
              old.2,
              old.3,
              refl,
            )
      ]

pub stored-retry :
    (again : ℕ) (at now : Datetime) (event : EventIngest) (db : Database) (row : RawEvent)
    → row.idempotency_key ≡ event.idempotency_key
    → IsStored row db
    → insert_event again at now event db ≡ ok (db, row, true)
stored-retry again at now event db row same stored =
    insert_event_claimed again at now event db row.id row (ground (arith, stored.claim))
      stored.found
