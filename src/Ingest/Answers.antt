-- ===== src/Ingest/Answers.antt =====
-- A batch whose keys are all claimed: no table changes, and each event is answered with the id that
-- its key has.
use analytics_pipeline.Prelude.{
  ℕ, String, ◌+◌, List, [], ◌∷◌, true, Option, some, Dict, get, update, get-update, map, contains,
  filter, length, All, filter-All, String_discrete, ◌≡◌, refl, arith, if_pos, if_neg,
}
use analytics_pipeline.Result.{ok}
use analytics_pipeline.Moment.{Datetime}
use analytics_pipeline.Records.{RawEvent, EventIngest}
use analytics_pipeline.Database.{Database}
use analytics_pipeline.Ingest.Store.{by_key, get_by_idempotency_keys, with_id}
use analytics_pipeline.Ingest.Single.{IsKeyed}
use analytics_pipeline.Ingest.Batch.{
  event_id_map, claim, returning, claim_keys, insert_claims, insert_batch,
}

-- the key has an id
abbrev pub IsClaimed : Dict String ℕ → String → Type 0
IsClaimed table key = (id : ℕ) × (get String_discrete key table ≡ some id)

update-claim :
    (key : String) (id new : ℕ) (table : Dict String ℕ)
    → get String_discrete key table ≡ some id
    → update String_discrete key (claim new) table ≡ table
unfolding get update claim
update-claim key id new [] h = ground (arith, h)
update-claim key id new ((k, v) ∷ table) h = ground (arith, update-claim key id new table)

claim_keys-claimed :
    (rows table : Dict String ℕ)
    → All (λ row. IsClaimed table row.0) rows
    → claim_keys rows table ≡ (table, [])
unfolding claim_keys returning
claim_keys-claimed [] table h = refl
claim_keys-claimed ((key, id) ∷ rows) table h =
    rw (update-claim key (h.0).0 id table (h.0).1, claim_keys-claimed rows table h.1, (h.0).1) refl

update-All :
    (P : String → Type 0) (key : String) (f : Option ℕ → ℕ) (d : Dict String ℕ)
    → P key
    → All (λ row. P row.0) d
    → All (λ row. P row.0) (update String_discrete key f d)
unfolding update
update-All P key f [] p h = (p, tt)
update-All P key f ((k, v) ∷ d) p h = elim (String_discrete k key) [
  | yes e ↦ rw (if_pos _ e) h
  | no e ↦ rw (if_neg _ e) (h.0, update-All P key f d p h.1)
]

event_id_map-All :
    (P : String → Type 0) (uuid4 : ℕ → ℕ) (i : ℕ) (es : List EventIngest) (d : Dict String ℕ)
    → All (λ e. P e.idempotency_key) es
    → All (λ row. P row.0) d
    → All (λ row. P row.0) (event_id_map uuid4 i es d)
unfolding event_id_map
event_id_map-All P uuid4 i [] d h k = k
event_id_map-All P uuid4 i (e ∷ es) d h k =
    event_id_map-All P uuid4 (1 + i) es _ h.1
      (update-All P e.idempotency_key (λ _. uuid4 i) d h.0 k)

pub insert_batch-claimed :
    (uuid4 : ℕ → ℕ) (at now : Datetime) (events : List EventIngest) (db : Database)
    → All (λ e. IsClaimed db.event_idempotency e.idempotency_key) events
    → insert_batch uuid4 at now events db ≡ ok (db, [], length events)
unfolding insert_batch insert_claims
insert_batch-claimed uuid4 at now events db h =
    let rows = event_id_map uuid4 0 events [] in
    rw
      (claim_keys-claimed rows db.event_idempotency
        (event_id_map-All (IsClaimed db.event_idempotency) uuid4 0 events [] h tt))
      refl

-- a row found by its key has the id that the key has
by_key-id :
    (table : Dict String ℕ) (key : String) (es : List RawEvent) (d : Dict String RawEvent)
    → All (λ e. get String_discrete e.idempotency_key table ≡ some e.id) es
    → ((row : RawEvent)
        → get String_discrete key d ≡ some row
        → get String_discrete key table ≡ some row.id)
    → (row : RawEvent) → get String_discrete key (by_key es d) ≡ some row
    → get String_discrete key table ≡ some row.id
unfolding by_key
by_key-id table key [] d h k row e = k row e
by_key-id table key (x ∷ es) d h k row e =
    by_key-id table key es _ h.1
      (λ r q. ground (arith, h.0, get-update String_discrete x.idempotency_key key (λ _. x) d, k r))
      row e

by_key-kept :
    (key : String) (es : List RawEvent) (d : Dict String RawEvent) (row : RawEvent)
    → get String_discrete key d ≡ some row
    → (found : RawEvent) × (get String_discrete key (by_key es d) ≡ some found)
unfolding by_key
by_key-kept key [] d row h = (row, h)
by_key-kept key (x ∷ es) d row h =
    let written = get-update String_discrete x.idempotency_key key (λ _. x) d in
    elim (String_discrete x.idempotency_key key) [
      | yes p ↦ by_key-kept key es _ x (ground (arith, written))
      | no p ↦ by_key-kept key es _ row (ground (arith, written))
    ]

-- a key that a row has is found
by_key-some :
    (key : String) (es : List RawEvent) (d : Dict String RawEvent)
    → contains String_discrete key (map (λ e. e.idempotency_key) es) ≡ true
    → (row : RawEvent) × (get String_discrete key (by_key es d) ≡ some row)
unfolding by_key contains
by_key-some key [] d h = ground (arith, h)
by_key-some key (x ∷ es) d h =
    let written = get-update String_discrete x.idempotency_key key (λ _. x) d in
    elim (String_discrete x.idempotency_key key) [
      | yes p ↦ by_key-kept key es _ x (ground (arith, written))
      | no p ↦ by_key-some key es _ (ground arith)
    ]

with_id-contains :
    (id : ℕ) (row : RawEvent) (raw : List RawEvent)
    → with_id id raw ≡ row ∷ []
    → contains String_discrete row.idempotency_key (map (λ e. e.idempotency_key) raw) ≡ true
unfolding with_id contains
with_id-contains id row [] h = ground arith
with_id-contains id row (e ∷ es) h = ground (arith, with_id-contains id row es)

-- selecting the rows with some of the keys keeps the rows with those keys
contains-selected :
    (keys : List String) (key : String) (raw : List RawEvent)
    → contains String_discrete key keys ≡ true
    → contains String_discrete key (map (λ e. e.idempotency_key) raw) ≡ true
    → contains String_discrete key (
        map
          (λ e. e.idempotency_key)
          (filter (λ e. contains String_discrete e.idempotency_key keys) raw))
      ≡ true
unfolding contains filter
contains-selected keys key [] k c = c
contains-selected keys key (e ∷ es) k c = elim (String_discrete e.idempotency_key key) [
  | yes p ↦ ground (arith, k)
  | no p ↦ ground (arith, contains-selected keys key es k)
]

pub get_by_idempotency_keys-claimed :
    (keys : List String) (key : String) (db : Database)
    → IsKeyed db
    → IsClaimed db.event_idempotency key
    → contains String_discrete key keys ≡ true
    → (row : RawEvent) × (get String_discrete key (get_by_idempotency_keys keys db) ≡ some row)
      × (get String_discrete key db.event_idempotency ≡ some row.id)
unfolding get_by_idempotency_keys get
get_by_idempotency_keys-claimed keys key db agree claim k =
    let stored = agree.claimed key claim.0 claim.1 in
    let selected = filter (λ e. contains String_discrete e.idempotency_key keys) db.raw_events in
    let here = rw (stored.2) at (with_id-contains claim.0 stored.0 db.raw_events stored.1) in
    let found = by_key-some key selected [] (contains-selected keys key db.raw_events k here) in
    (
      found.0,
      found.1,
      by_key-id db.event_idempotency key selected [] (filter-All _ _ db.raw_events agree.keyed)
          (λ r q. ground (arith, q)) found.0 found.1,
    )
