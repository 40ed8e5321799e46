-- ===== src/Ingest/Batch/Repeated.antt =====
-- A new key that stands twice in one batch makes the batch fail.
use analytics_pipeline.Prelude.{
  ◌+◌, ◌-◌, length, ℕ, String, true, false, List, [], ◌∷◌, ◌++◌, none, some, map, get, update,
  get-update, contains, filter, String_discrete, Dict, ◌≡◌, refl, arith, inl, inr, Option-cases,
}
use analytics_pipeline.Result.{Result, ok, err, is_ok, ◌>>=◌}
use analytics_pipeline.Moment.{Datetime}
use analytics_pipeline.Records.{RawEvent, EventIngest}
use analytics_pipeline.Database.{Database}
use analytics_pipeline.Worker.Batch.{ids}
use analytics_pipeline.Ingest.Store.{has_row, insert_rows, row_for}
use analytics_pipeline.Ingest.Batch.{
  claim_keys, raw_values, insert_claims, insert_batch, event_id_map, subscript, found,
}
use analytics_pipeline.Ingest.Batch.Claims.{claim_keys_lem}

has_row-append :
    (id : ℕ) (at : Datetime) (row : RawEvent) (raw : List RawEvent)
    → has_row id at raw ≡ true
    → has_row id at (raw ++ row ∷ []) ≡ true
unfolding has_row
has_row-append id at row [] h = ground (arith, h)
has_row-append id at row (e ∷ es) h = ground (arith, has_row-append id at row es)

has_row-last :
    (row : RawEvent) (raw : List RawEvent) → has_row row.id row.occurred_at (raw ++ row ∷ []) ≡ true
unfolding has_row
has_row-last row [] = ground arith
has_row-last row (e ∷ es) = ground (arith, has_row-last row es)

-- the two steps of `insert_batch` after the claims
insert_values :
    Dict String ℕ → Datetime → Datetime → List EventIngest → List RawEvent → Result (List RawEvent)
insert_values ids at now es raw = raw_values ids at now es >>= (λ rows. insert_rows rows raw)

-- a row before the others: it must be new itself, and they are inserted after it
insert_rows-first :
    (row : RawEvent) (r : Result (List RawEvent)) (raw : List RawEvent)
    → (has_row row.id row.occurred_at raw ≡ false
        → is_ok (r >>= (λ rows. insert_rows rows (raw ++ row ∷ []))) ≡ false)
    → is_ok ((r >>= (λ rows. ok (row ∷ rows))) >>= (λ rows. insert_rows rows raw)) ≡ false
unfolding is_ok insert_rows
insert_rows-first row (ok rows) raw h = ground arith
insert_rows-first row (err e) raw h = refl

-- events at a time at which the id of one of their keys has a row already
insert_values-stored :
    (ids : Dict String ℕ) (at now : Datetime) (es : List EventIngest) (raw : List RawEvent)
    (key : String) (id : ℕ)
    → get String_discrete key ids ≡ some id
    → contains String_discrete key (map (λ e. e.idempotency_key) es) ≡ true
    → has_row id at raw ≡ true
    → is_ok (insert_values ids at now es raw) ≡ false
unfolding insert_values raw_values subscript found contains row_for is_ok
insert_values-stored ids at now [] raw key id h c s = ground (arith, c)
insert_values-stored ids at now (e ∷ es) raw key id h c s =
    elim (Option-cases (get String_discrete e.idempotency_key ids)) [
      | inl none_of ↦ rw none_of refl
      | inr claim ↦
          let row = row_for claim.0 at now e in
          rw claim.1 (
            insert_rows-first row (raw_values ids at now es) raw (λ new.
              insert_values-stored ids at now es (raw ++ row ∷ []) key id h (ground (arith, new))
                (has_row-append id at row raw s)))
    ]

insert_values-repeated :
    (ids : Dict String ℕ) (at now : Datetime) (e : EventIngest) (es : List EventIngest)
    (raw : List RawEvent) (id : ℕ)
    → get String_discrete e.idempotency_key ids ≡ some id
    → contains String_discrete e.idempotency_key (map (λ e. e.idempotency_key) es) ≡ true
    → is_ok (insert_values ids at now (e ∷ es) raw) ≡ false
unfolding insert_values raw_values subscript found row_for
insert_values-repeated ids at now e es raw id h c =
    let row = row_for id at now e in
    rw h (
      insert_rows-first row (raw_values ids at now es) raw (λ _.
        insert_values-stored ids at now es (raw ++ row ∷ []) e.idempotency_key id h c
          (has_row-last row raw)))

-- a key that the dict has keeps an id, whatever events follow
event_id_map-some :
    (uuid4 : ℕ → ℕ) (i : ℕ) (es : List EventIngest) (d : Dict String ℕ) (key : String) (id : ℕ)
    → get String_discrete key d ≡ some id
    → (id' : ℕ) × (get String_discrete key (event_id_map uuid4 i es d) ≡ some id')
unfolding event_id_map
event_id_map-some uuid4 i [] d key id h = (id, h)
event_id_map-some uuid4 i (e ∷ es) d key id h = elim (String_discrete e.idempotency_key key) [
  | yes p ↦
      event_id_map-some uuid4 (1 + i) es (update String_discrete e.idempotency_key (λ _. uuid4 i) d)
        key (uuid4 i)
        (ground (arith, get-update String_discrete e.idempotency_key key (λ _. uuid4 i) d))
  | no p ↦
      event_id_map-some uuid4 (1 + i) es (update String_discrete e.idempotency_key (λ _. uuid4 i) d)
        key id (ground (arith, get-update String_discrete e.idempotency_key key (λ _. uuid4 i) d))
]

-- a claimed key that the events have is a key of the claimed events
contains-claimed :
    (claimed : List String) (key : String) (es : List EventIngest)
    → contains String_discrete key claimed ≡ true
    → contains String_discrete key (map (λ e. e.idempotency_key) es) ≡ true
    → contains String_discrete key (
        map
          (λ e. e.idempotency_key)
          (filter (λ e. contains String_discrete e.idempotency_key claimed) es))
      ≡ true
unfolding contains filter
contains-claimed claimed key [] k c = c
contains-claimed claimed key (e ∷ es) k c = elim (String_discrete e.idempotency_key key) [
  | yes p ↦ ground (arith, k)
  | no p ↦ ground (arith, contains-claimed claimed key es k)
]

is_ok-ok :
    {A B : Type 0} (r : Result A) (f : A → B)
    → is_ok r ≡ false
    → is_ok (r >>= (λ x. ok (f x))) ≡ false
unfolding is_ok
is_ok-ok (ok a) f h = ground (arith, h)
is_ok-ok (err e) f h = refl

is_ok-claims :
    (r : Result (List RawEvent)) (raw : List RawEvent) (db : Database) (n : ℕ)
    → is_ok (r >>= (λ rows. insert_rows rows raw)) ≡ false
    → is_ok {A = Database × List RawEvent × ℕ} (
        r >>= (λ rows.
          insert_rows rows raw >>= (λ raw'. ok (record db { raw_events = raw' }, rows, n))))
      ≡ false
unfolding is_ok
is_ok-claims (err e) raw db n h = h
is_ok-claims (ok rows) raw db n h =
    is_ok-ok (insert_rows rows raw) (λ raw'. (record db { raw_events = raw' }, rows, n)) h

insert_claims-repeated :
    (ids : Dict String ℕ) (claimed : List String) (at now : Datetime) (e : EventIngest)
    (es : List EventIngest) (db : Database) (id : ℕ)
    → get String_discrete e.idempotency_key ids ≡ some id
    → contains String_discrete e.idempotency_key claimed ≡ true
    → contains String_discrete e.idempotency_key (map (λ e. e.idempotency_key) es) ≡ true
    → is_ok (insert_claims ids claimed at now (e ∷ es) db) ≡ false
unfolding insert_claims filter contains insert_values
insert_claims-repeated ids [] at now e es db id h k c = ground (arith, k)
insert_claims-repeated ids (key ∷ keys) at now e es db id h k c = rw k (
    is_ok-claims
      (raw_values ids at now
        (e ∷ filter (λ e. contains String_discrete e.idempotency_key (key ∷ keys)) es))
      db.raw_events db (length (e ∷ es) - length (key ∷ keys))
      (insert_values-repeated ids at now e _ db.raw_events id h
        (contains-claimed (key ∷ keys) e.idempotency_key es k c)))

-- A batch whose first event has a new key that a later event of the batch has too is refused: no
-- response for it, and no event of it stored.
pub insert_batch-repeated :
    (uuid4 : ℕ → ℕ) (at now : Datetime) (e : EventIngest) (es : List EventIngest) (db : Database)
    → get String_discrete e.idempotency_key db.event_idempotency ≡ none
    → contains String_discrete e.idempotency_key (map (λ e. e.idempotency_key) es) ≡ true
    → is_ok (insert_batch uuid4 at now (e ∷ es) db) ≡ false
unfolding insert_batch event_id_map update get
insert_batch-repeated uuid4 at now e es db fresh c =
    let ids = event_id_map uuid4 0 (e ∷ es) [] in
    let id =
      event_id_map-some uuid4 1 es ((e.idempotency_key, uuid4 0) ∷ []) e.idempotency_key (uuid4 0)
        (ground arith) in
    let claim = claim_keys_lem ids db.event_idempotency e.idempotency_key in
    insert_claims-repeated ids (claim_keys ids db.event_idempotency).1 at now e es _ id.0 id.1
      (ground (arith, claim.1, id.1, fresh)) c
