-- ===== src/Worker/Cursor.antt =====
-- The offset as a cursor: what the worker reads again, and what it never reads again.
use analytics_pipeline.Prelude.{
  ℕ, zero, suc, String, true, false, List, [], ◌∷◌, Option, none, some, contains, filter,
  filter-All, All-filter, All, All-map, All-both, All-contains, All-last_of, IsDistinct,
  sort_by-All, take-All, ℕ_discrete, ◌≡◌, refl, arith, last_of, get-update, String_discrete,
  sort_by,
}
use analytics_pipeline.Settings.{Settings}
use analytics_pipeline.Moment.{Datetime, before, at_most}
use analytics_pipeline.Records.{RawEvent}
use analytics_pipeline.Database.{Database}
use analytics_pipeline.Worker.Fetch.{
  get_events_after, created_at_of, later_than, by_created_at, by_created_at_id,
}
use analytics_pipeline.Worker.Batch.{
  ids, get_consumer_offset, last_event_id_of, upsert_consumer_offset, process_batch, fetch,
  committed,
}
use analytics_pipeline.Worker.Commit.{with_deltas, after}
use analytics_pipeline.Worker.Exact.{marked, marked-after, raw_events-after, processed-after}
use analytics_pipeline.Worker.Replay.{after_fetched}
use analytics_pipeline.Worker.Idempotent.{committed-batch}

pub fetched-All :
    (P : RawEvent → Type 0) (raw : List RawEvent) (last : Option ℕ) (limit : ℕ)
    → All P raw
    → All P (get_events_after raw last limit)
unfolding get_events_after
fetched-All P raw none limit h =
    take-All P by_created_at limit _ (sort_by-All P by_created_at raw h)
fetched-All P raw (some id) limit h =
    let later = later_than (created_at_of id raw) in
    take-All P by_created_at_id limit _
      (sort_by-All P by_created_at_id (filter later raw) (filter-All P later raw h))

-- Behind an offset at time `t`, only events created after `t` are read.
pub get_events_after-later :
    (raw : List RawEvent) (id limit : ℕ) (t : Datetime)
    → created_at_of id raw ≡ some t
    → All (λ e. before t e.created_at ≡ true) (get_events_after raw (some id) limit)
unfolding get_events_after
get_events_after-later raw id limit t h =
    let P = λ (e : RawEvent). before t e.created_at ≡ true in
    let kept = filter (later_than (some t)) raw in
    let passed : All P kept = unfold later_than in All-filter (λ e. before t e.created_at) raw in
    rw h (
      take-All P by_created_at_id limit (sort_by by_created_at_id kept)
        (sort_by-All P by_created_at_id kept passed))

-- each event's own creation time is found by its id
abbrev pub IsIndexed : List RawEvent → RawEvent → Type 0
IsIndexed raw e = created_at_of e.id raw ≡ some e.created_at

pub created_at_of_self :
    (raw : List RawEvent) → IsDistinct ℕ_discrete (ids raw) → All (IsIndexed raw) raw
unfolding created_at_of contains
created_at_of_self [] h = tt
created_at_of_self (e ∷ es) h = (
  ground arith,
  All-map es (λ x k. ground (arith, k.0, k.1, h.0))
      (All-both (IsIndexed es) (λ x. contains ℕ_discrete x.id (ids es) ≡ true) es
        (created_at_of_self es h.1) (All-contains ℕ_discrete (λ (x : RawEvent). x.id) es)),
)

-- The event is stored, has no marker, and was not created after the event that the offset names.
pub record IsBehind (s : Settings) (e : RawEvent) (db : Database) : Type 0 where
  pub distinct : IsDistinct ℕ_discrete (ids db.raw_events)
  pub stored : IsIndexed db.raw_events e
  pub unmarked : marked db.processed_rollup_events s.worker_id e ≡ false
  pub last_id : ℕ
  pub last_at : Datetime
  pub offset : last_event_id_of (get_consumer_offset db s.worker_id) ≡ some last_id
  pub cursor : created_at_of last_id db.raw_events ≡ some last_at
  pub not_later : at_most e.created_at last_at ≡ true

-- an event at or before the cursor is not among events after it
later-not-contains :
    (raw : List RawEvent) (e : RawEvent) (t : Datetime) (events : List RawEvent)
    → IsIndexed raw e
    → at_most e.created_at t ≡ true
    → All (IsIndexed raw) events
    → All (λ x. before t x.created_at ≡ true) events
    → contains ℕ_discrete e.id (ids events) ≡ false
unfolding contains at_most before
later-not-contains raw e t [] i m a l = refl
later-not-contains raw e t (x ∷ xs) i m a l =
    ground (arith, later-not-contains raw e t xs i m a.1 l.1, a.0, l.0)

pub offset-after :
    (c : String) (db : Database) (e : RawEvent) (es : List RawEvent)
    → last_event_id_of (get_consumer_offset (after c db e es) c) ≡ some (last_of e es).id
unfolding get_consumer_offset after upsert_consumer_offset with_deltas last_event_id_of
offset-after c db e es = ground (
  arith,
  get-update String_discrete c c
      (λ _. record {
        last_event_id = some (last_of e es).id;
        last_event_at = some (last_of e es).occurred_at;
      })
      db.consumer_offsets,
)

after_fetched-IsBehind :
    (s : Settings) (e : RawEvent) (db : Database) (b : IsBehind s e db) (events : List RawEvent)
    → All (IsIndexed db.raw_events) events
    → All (λ x. before b.last_at x.created_at ≡ true) events
    → IsBehind s e (after_fetched s.worker_id db events)
unfolding after_fetched
after_fetched-IsBehind s e db b [] i l = b
after_fetched-IsBehind s e db b (x ∷ xs) i l =
    let last = last_of x xs in
    let c = s.worker_id in
    let absent = later-not-contains db.raw_events e b.last_at (x ∷ xs) b.stored b.not_later i l in
    let later = All-last_of (λ y. before b.last_at y.created_at ≡ true) x xs l in
    record {
      distinct = rw (raw_events-after c db x xs []) b.distinct;
      stored = rw (raw_events-after c db x xs []) b.stored;
      unmarked = rw processed-after (
          unfold marked in
          ground
            (arith, marked-after db.processed_rollup_events c (x ∷ xs) e.id, absent, b.unmarked));
      last_id = last.id;
      last_at = last.created_at;
      offset = offset-after c db x xs;
      cursor = rw (raw_events-after c db x xs []) (All-last_of (IsIndexed db.raw_events) x xs i);
      not_later = unfold at_most before in ground (arith, b.not_later, later);
    }

batch-IsBehind :
    (s : Settings) (e : RawEvent) (db : Database)
    → IsBehind s e db
    → IsBehind s e (committed db (process_batch s db))
unfolding fetch
batch-IsBehind s e db b =
    let indexed = created_at_of_self db.raw_events b.distinct in
    rw (committed-batch s db b.distinct) (
      after_fetched-IsBehind s e db b (fetch s db)
        (fetched-All (IsIndexed db.raw_events) db.raw_events _ s.worker_batch_size indexed)
        (rw b.offset
          (get_events_after-later db.raw_events b.last_id s.worker_batch_size b.last_at b.cursor)))

-- `n` batches, one after another
unfoldable pub run_batches : ℕ → Settings → Database → Database
run_batches zero s db = db
run_batches (suc n) s db = run_batches n s (committed db (process_batch s db))

-- An event that was not created after the event of the offset, and has no marker, never gets one:
-- no number of batches counts it. So a batch that ends between two events of one transaction, which
-- have the same creation time, loses the second.
pub run_batches-IsBehind :
    (n : ℕ) (s : Settings) (e : RawEvent) (db : Database)
    → IsBehind s e db
    → IsBehind s e (run_batches n s db)
unfolding run_batches
run_batches-IsBehind zero s e db b = b
run_batches-IsBehind (suc n) s e db b =
    run_batches-IsBehind n s e (committed db (process_batch s db)) (batch-IsBehind s e db b)
