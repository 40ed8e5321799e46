-- ===== src/Ingest/Batch/Each.antt =====
-- A batch of new keys beside its events one at a time: `insert_batch` and `insert_event` of
-- app/repositories/event_repository.py.
use analytics_pipeline.Prelude.{
  ℕ, String, ◌+◌, ◌-◌, Bool, false, List, [], ◌∷◌, ◌++◌, none, Dict, get, contains, filter,
  filter-All_self, All-contains, IsDistinct, String_discrete, length, ◌≡◌, refl, sym, ap, ◌∙◌,
  arith,
}
use mathlib.Core.List.{append_assoc, append-nil}
use analytics_pipeline.Result.{Result, ok, err, ◌>>=◌}
use analytics_pipeline.Moment.{Datetime}
use analytics_pipeline.Records.{RawEvent, EventIngest}
use analytics_pipeline.Database.{Database}
use analytics_pipeline.Ingest.Store.{insert_rows, row_for, insert_event, insert_claimed}
use analytics_pipeline.Ingest.Batch.{raw_values, insert_claims, insert_batch}
use analytics_pipeline.Ingest.Batch.Assigned.{
  keys, AreNew, AreNew-nil, AreNew-append, update-none, assigned, rows_from, event_id_map-assigned,
  claim_keys-assigned, raw_values-assigned,
}

-- `insert_event` for each event, in order; the event at position i draws the UUID `uuid4 i`
unfoldable pub insert_each :
    (ℕ → ℕ)
    → ℕ
    → Datetime
    → Datetime
    → List EventIngest
    → Database
    → Result (Database × List RawEvent)
insert_each uuid4 i occurred_at now [] db = ok (db, [])
insert_each uuid4 i occurred_at now (e ∷ es) db = do
  inserted ← insert_event (uuid4 i) occurred_at now e db
  rest ← insert_each uuid4 (1 + i) occurred_at now es inserted.0
  ok (rest.0, inserted.1 ∷ rest.1)

module _ (uuid4 : ℕ → ℕ) (occurred_at now : Datetime) where
  -- rows go in one after another
  insert_rows-cons :
      (row : RawEvent) (rows raw : List RawEvent)
      → insert_rows (row ∷ rows) raw ≡ (insert_rows (row ∷ []) raw >>= insert_rows rows)
  unfolding insert_rows
  insert_rows-cons row rows raw = ground arith

  -- the tables with the keys and some rows
  with_rows : ℕ → List EventIngest → Database → List RawEvent → Result (Database × List RawEvent)
  with_rows i es db raw = ok (
    record db {
      event_idempotency = db.event_idempotency ++ assigned uuid4 occurred_at now i es;
      raw_events = raw;
    },
    rows_from uuid4 occurred_at now i es,
  )

  -- the tables after one event of a new key
  one_more : ℕ → EventIngest → Database → List RawEvent → Database
  one_more i e db raw = record db {
    event_idempotency = db.event_idempotency ++ (e.idempotency_key, uuid4 i) ∷ [];
    raw_events = raw;
  }

  accepted : ℕ → EventIngest → Database → List RawEvent → Result (Database × RawEvent × Bool)
  accepted i e db raw = ok (one_more i e db raw, row_for (uuid4 i) occurred_at now e, false)

  insert_event-new :
      (i : ℕ) (e : EventIngest) (db : Database)
      → get String_discrete e.idempotency_key db.event_idempotency ≡ none
      → insert_event (uuid4 i) occurred_at now e db
        ≡ (insert_rows (row_for (uuid4 i) occurred_at now e ∷ []) db.raw_events >>= accepted i e db)
  unfolding insert_event insert_claimed one_more accepted
  insert_event-new i e db new =
      rw (new, update-none e.idempotency_key (λ _. uuid4 i) db.event_idempotency new) refl

  -- the row of an event before the rows of the others
  prepend : RawEvent → Database × List RawEvent → Result (Database × List RawEvent)
  prepend row rest = ok (rest.0, row ∷ rest.1)

  -- the other events after one
  go_on : ℕ → List EventIngest → Database × RawEvent × Bool → Result (Database × List RawEvent)
  go_on i es inserted =
      insert_each uuid4 (1 + i) occurred_at now es inserted.0 >>= prepend inserted.1

  with_rows-one_more :
      (i : ℕ) (e : EventIngest) (es : List EventIngest) (db : Database) (raw : List RawEvent)
      (o : Result (List RawEvent))
      → ((o >>= with_rows (1 + i) es (one_more i e db raw))
          >>= prepend (row_for (uuid4 i) occurred_at now e))
        ≡ (o >>= with_rows i (e ∷ es) db)
  unfolding with_rows one_more prepend assigned rows_from
  with_rows-one_more i e es db raw (err x) = refl
  with_rows-one_more i e es db raw (ok rows) =
      ap
        (λ (table : Dict String ℕ). ok (
          record db { event_idempotency = table; raw_events = rows },
          row_for (uuid4 i) occurred_at now e ∷ rows_from uuid4 occurred_at now (1 + i) es,
        ))
        (append_assoc db.event_idempotency ((e.idempotency_key, uuid4 i) ∷ [])
          (assigned uuid4 occurred_at now (1 + i) es))

  -- if the others are as they should be, so are all
  insert_each-step :
      (i : ℕ) (e : EventIngest) (es : List EventIngest) (db : Database)
      (others : (raw : List RawEvent)
        → insert_each uuid4 (1 + i) occurred_at now es (one_more i e db raw) ≡ (
            insert_rows (rows_from uuid4 occurred_at now (1 + i) es) raw
            >>= with_rows (1 + i) es (one_more i e db raw)))
      (o : Result (List RawEvent))
      → ((o >>= accepted i e db) >>= go_on i es) ≡ (
          (o >>= insert_rows (rows_from uuid4 occurred_at now (1 + i) es))
          >>= with_rows i (e ∷ es) db)
  unfolding accepted go_on
  insert_each-step i e es db others (err x) = refl
  insert_each-step i e es db others (ok raw) =
      ap (λ r. r >>= prepend (row_for (uuid4 i) occurred_at now e)) (others raw)
      ∙ with_rows-one_more i e es db raw
          (insert_rows (rows_from uuid4 occurred_at now (1 + i) es) raw)

  insert_each-rows :
      (i : ℕ) (es : List EventIngest) (db : Database)
      → IsDistinct String_discrete (keys es)
      → AreNew db.event_idempotency es
      → insert_each uuid4 i occurred_at now es db
        ≡ (insert_rows (rows_from uuid4 occurred_at now i es) db.raw_events >>= with_rows i es db)
  unfolding insert_each rows_from prepend go_on insert_rows with_rows assigned one_more
  insert_each-rows i [] db h new =
      ap (λ (table : Dict String ℕ). ok (record db { event_idempotency = table }, []))
        (sym (append-nil db.event_idempotency))
  insert_each-rows i (e ∷ es) db h new =
      let row = row_for (uuid4 i) occurred_at now e in
      let others : (raw : List RawEvent)
          → insert_each uuid4 (1 + i) occurred_at now es (one_more i e db raw) ≡ (
              insert_rows (rows_from uuid4 occurred_at now (1 + i) es) raw
              >>= with_rows (1 + i) es (one_more i e db raw)) =
        λ raw. insert_each-rows (1 + i) es (one_more i e db raw) h.1 (
          unfold one_more in
          AreNew-append e.idempotency_key (uuid4 i) db.event_idempotency es h.0 new.1) in
      ap (λ r. r >>= go_on i es) (insert_event-new i e db new.0)
      ∙ insert_each-step i e es db others (insert_rows (row ∷ []) db.raw_events)
      ∙ sym (
          ap (λ r. r >>= with_rows i (e ∷ es) db)
            (insert_rows-cons row (rows_from uuid4 occurred_at now (1 + i) es) db.raw_events))

  length-keys : (es : List EventIngest) → length (keys es) ≡ length es
  length-keys [] = refl
  length-keys (e ∷ es) = omega (arith, length-keys es)

  all_claimed :
      (es : List EventIngest)
      → filter (λ e. contains String_discrete e.idempotency_key (keys es)) es ≡ es
  all_claimed es =
      filter-All_self _ es
        (All-contains String_discrete (λ (e : EventIngest). e.idempotency_key) es)

  -- the rows of a batch whose keys were all claimed now
  claimed_rows : List EventIngest → Database → List RawEvent → Result (Database × List RawEvent × ℕ)
  claimed_rows es db raw =
      ok (record db { raw_events = raw }, rows_from uuid4 occurred_at now 0 es, 0)

  insert_claims-new :
      (es : List EventIngest) (db : Database)
      → IsDistinct String_discrete (keys es)
      → insert_claims (assigned uuid4 occurred_at now 0 es) (keys es) occurred_at now es db
        ≡ (insert_rows (rows_from uuid4 occurred_at now 0 es) db.raw_events >>= claimed_rows es db)
  unfolding insert_claims claimed_rows
  insert_claims-new [] db h = unfold insert_rows rows_from in refl
  insert_claims-new (e ∷ es) db h =
      let values : raw_values (assigned uuid4 occurred_at now 0 (e ∷ es)) occurred_at now (e ∷ es)
          ≡ ok (rows_from uuid4 occurred_at now 0 (e ∷ es)) =
        raw_values-assigned uuid4 occurred_at now 0 (e ∷ es) [] h (AreNew-nil (e ∷ es)) in
      let none_left : length (e ∷ es) - length (keys (e ∷ es)) ≡ 0 =
        omega (arith, length-keys (e ∷ es)) in
      rw (all_claimed (e ∷ es), values, none_left) refl

  -- the answer of the batch from the answers of its events
  as_batch : Database × List RawEvent → Result (Database × List RawEvent × ℕ)
  as_batch each = ok (each.0, each.1, 0)

  same_rows :
      (es : List EventIngest) (db : Database) (o : Result (List RawEvent))
      → (o
          >>= claimed_rows es (record db {
            event_idempotency = db.event_idempotency ++ assigned uuid4 occurred_at now 0 es;
          }))
        ≡ ((o >>= with_rows 0 es db) >>= as_batch)
  unfolding claimed_rows with_rows as_batch
  same_rows es db (ok raw) = refl
  same_rows es db (err x) = refl

  insert_batch-rows :
      (es : List EventIngest) (db : Database)
      → IsDistinct String_discrete (keys es)
      → AreNew db.event_idempotency es
      → insert_batch uuid4 occurred_at now es db
        ≡ (insert_each uuid4 0 occurred_at now es db >>= as_batch)
  unfolding insert_batch
  insert_batch-rows es db h new =
      let table = db.event_idempotency ++ assigned uuid4 occurred_at now 0 es in
      rw
        (
          event_id_map-assigned uuid4 occurred_at now 0 es [] h (AreNew-nil es),
          claim_keys-assigned uuid4 occurred_at now 0 es db.event_idempotency h new,
        )
        (insert_claims-new es (record db { event_idempotency = table }) h
          ∙ same_rows es db (insert_rows (rows_from uuid4 occurred_at now 0 es) db.raw_events)
          ∙ ap (λ r. r >>= as_batch) (sym (insert_each-rows 0 es db h new)))

-- A batch whose keys differ and are new is its events one at a time: it leaves the same tables, inserts
-- the same rows and counts no duplicate, or raises what the first event that cannot be stored raises.
pub insert_batch-insert_each :
    (uuid4 : ℕ → ℕ) (occurred_at now : Datetime) (es : List EventIngest) (db : Database)
    → IsDistinct String_discrete (keys es)
    → AreNew db.event_idempotency es
    → insert_batch uuid4 occurred_at now es db
      ≡ (insert_each uuid4 0 occurred_at now es db >>= (λ each. ok (each.0, each.1, 0)))
insert_batch-insert_each uuid4 occurred_at now es db h new =
    unfold as_batch in insert_batch-rows uuid4 occurred_at now es db h new
