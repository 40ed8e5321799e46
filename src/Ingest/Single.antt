-- ===== src/Ingest/Single.antt =====
-- `insert_event`: one stored event for each idempotency key.
use analytics_pipeline.Prelude.{
  ℕ, String, true, false, List, [], ◌∷◌, ◌++◌, none, some, get, update, contains, All, IsDistinct,
  ℕ_discrete, String_discrete, ◌≡◌, refl, ◌≤◌, arith,
}
use analytics_pipeline.Result.{ok}
use analytics_pipeline.Moment.{Datetime}
use analytics_pipeline.Records.{RawEvent, EventIngest}
use analytics_pipeline.Database.{Database}
use analytics_pipeline.Worker.Batch.{ids}
use analytics_pipeline.Ingest.Store.{
  max_integer, one, with_id, has_row, insert_rows, row_for, insert_claimed, insert_event,
}

-- The two tables agree: a key is claimed for exactly the one event that carries it.
pub record IsKeyed (db : Database) : Type 0 where
  -- event ids are distinct
  pub distinct : IsDistinct ℕ_discrete (ids db.raw_events)
  -- a claimed key has its event
  pub claimed :
      (key : String) (id : ℕ)
      → get String_discrete key db.event_idempotency ≡ some id
      → (row : RawEvent) × (with_id id db.raw_events ≡ row ∷ []) × (row.idempotency_key ≡ key)
  -- an event's key is claimed for it
  pub keyed :
      All
        (λ e. get String_discrete e.idempotency_key db.event_idempotency ≡ some e.id)
        db.raw_events

-- a UUID that the tables do not hold yet
abbrev pub IsFresh : ℕ → Database → Type 0
IsFresh id db = contains ℕ_discrete id (ids db.raw_events) ≡ false

pub has_row-fresh :
    (id : ℕ) (at : Datetime) (raw : List RawEvent)
    → contains ℕ_discrete id (ids raw) ≡ false
    → has_row id at raw ≡ false
unfolding has_row contains
has_row-fresh id at [] h = refl
has_row-fresh id at (e ∷ es) h = ground (arith, has_row-fresh id at es)

pub with_id-fresh :
    (id : ℕ) (raw : List RawEvent) → contains ℕ_discrete id (ids raw) ≡ false → with_id id raw ≡ []
unfolding with_id contains
with_id-fresh id [] h = refl
with_id-fresh id (e ∷ es) h = ground (arith, with_id-fresh id es)

pub with_id-append :
    (id : ℕ) (xs ys : List RawEvent) → with_id id (xs ++ ys) ≡ with_id id xs ++ with_id id ys
unfolding with_id
with_id-append id [] ys = refl
with_id-append id (e ∷ es) ys = ground (arith, with_id-append id es ys)

-- what a new key leaves behind
unfoldable pub with_event : ℕ → Datetime → Datetime → EventIngest → Database → Database
with_event id at now event db = record db {
  event_idempotency = update String_discrete event.idempotency_key (λ _. id) db.event_idempotency;
  raw_events = db.raw_events ++ row_for id at now event ∷ [];
}

module _ (id : ℕ) (at now : Datetime) (event : EventIngest) (db : Database) where
  -- A key that was not claimed is claimed, and its event is stored: nothing raises.
  pub insert_event_new :
      get String_discrete event.idempotency_key db.event_idempotency ≡ none
      → IsFresh id db
      → event.amount_cents ≤ max_integer
      → insert_event id at now event db
        ≡ ok (with_event id at now event db, row_for id at now event, false)
  unfolding insert_event insert_claimed insert_rows with_event row_for
  insert_event_new unclaimed fresh fits =
      ground (arith, has_row-fresh id at db.raw_events fresh, unclaimed)

  -- A claimed key changes nothing: the event that carries it comes back.
  pub insert_event_claimed :
      (existing : ℕ) (row : RawEvent)
      → get String_discrete event.idempotency_key db.event_idempotency ≡ some existing
      → with_id existing db.raw_events ≡ row ∷ []
      → insert_event id at now event db ≡ ok (db, row, true)
  unfolding insert_event insert_claimed one
  insert_event_claimed existing row claim found = rw (claim, found)
