-- ===== src/Worker/Live/Caught.antt =====
-- What a batch keeps: the cursor passes no event without a marker.
use analytics_pipeline.Prelude.{
  ℕ, suc, ◌-◌, ◌≤◌, String, Bool, true, List, [], ◌∷◌, ◌++◌, Option, some, length, All, All-map,
  All-both, All-contains, All-append, All-append_inv, All-last_of, All-perm, number_of, IsDistinct,
  ℕ_discrete, ◌≡◌, ap, subst, arith, last_of, if◌then◌else◌,
}
use mathlib.Core.List.{Perm}
use mathlib.Core.List.Perm
use analytics_pipeline.Records.{RawEvent}
use analytics_pipeline.Database.{Database}
use analytics_pipeline.Worker.Fetch.{get_events_after, created_at_of, later_than}
use analytics_pipeline.Worker.Batch.{ids, get_consumer_offset, last_event_id_of}
use analytics_pipeline.Worker.Commit.{after}
use analytics_pipeline.Worker.Exact.{
  marked, markers_after, marked-after, raw_events-after, processed-after,
}
use analytics_pipeline.Worker.Replay.{after_fetched}
use analytics_pipeline.Worker.Cursor.{IsIndexed, offset-after}
use analytics_pipeline.Worker.Live.Pending.{
  is_pending, moments, passed, passed-pending, left, raw-perm, number_of-pending, pending_none,
}
use analytics_pipeline.Worker.Live.Advance.{number_of-pending-after, left-after}

-- the event is counted, or the worker has still to read it
unfoldable pub is_covered : List RawEvent → Option ℕ → List (String × ℕ) → String → RawEvent → Bool
is_covered raw last table c e = if marked table c e then true else is_pending raw last e

-- where the consumer's cursor stands
abbrev pub cursor : String → Database → Option ℕ
cursor c db = last_event_id_of (get_consumer_offset db c)

-- Event ids and moments of creation are distinct, and the cursor has passed no event without a
-- marker.
pub record IsCaughtUp (c : String) (db : Database) : Type 0 where
  pub distinct : IsDistinct ℕ_discrete (ids db.raw_events)
  pub apart : IsDistinct ℕ_discrete (moments db.raw_events)
  pub covered :
      All
        (λ e. is_covered db.raw_events (cursor c db) db.processed_rollup_events c e ≡ true)
        db.raw_events

-- what was marked, and what the batch read, is marked after it
module _ (c : String) (db : Database) (limit : ℕ) (x : RawEvent) (xs : List RawEvent)
    (read : get_events_after db.raw_events (cursor c db) limit ≡ x ∷ xs) where
  covered_after : RawEvent → Bool
  covered_after e =
      is_covered db.raw_events (some (last_of x xs).id)
        (markers_after db.processed_rollup_events c (x ∷ xs)) c e

  read-covered : All (λ e. covered_after e ≡ true) (x ∷ xs)
  unfolding covered_after is_covered marked
  read-covered =
      All-map (x ∷ xs)
        (λ e h. ground (arith, marked-after db.processed_rollup_events c (x ∷ xs) e.id, h))
        (All-contains ℕ_discrete (λ (e : RawEvent). e.id) (x ∷ xs))

  -- not pending before, so marked before
  passed-covered :
      All
        (λ e. is_covered db.raw_events (cursor c db) db.processed_rollup_events c e ≡ true)
        (passed db.raw_events (cursor c db))
      → All (λ e. covered_after e ≡ true) (passed db.raw_events (cursor c db))
  unfolding covered_after is_covered marked
  passed-covered h =
      All-map (passed db.raw_events (cursor c db))
        (λ e k. ground (arith, marked-after db.processed_rollup_events c (x ∷ xs) e.id, k.0, k.1))
        (All-both _ _ (passed db.raw_events (cursor c db)) h
          (passed-pending db.raw_events (cursor c db)))

  left-covered :
      created_at_of (last_of x xs).id db.raw_events ≡ some (last_of x xs).created_at
      → IsDistinct ℕ_discrete (moments db.raw_events)
      → All (λ e. covered_after e ≡ true) (left db.raw_events (cursor c db) limit)
  unfolding covered_after is_covered is_pending later_than
  left-covered at h =
      let behind = left-after db.raw_events (cursor c db) limit x xs read h in
      All-map (left db.raw_events (cursor c db) limit) (λ e k. ground (arith, ap later_than at, k))
        behind

  -- the batch keeps the invariant
  after-IsCaughtUp :
      created_at_of (last_of x xs).id db.raw_events ≡ some (last_of x xs).created_at
      → IsCaughtUp c db
      → IsCaughtUp c (after c db x xs)
  unfolding covered_after
  after-IsCaughtUp at h =
      let rest = left db.raw_events (cursor c db) limit in
      let old = passed db.raw_events (cursor c db) in
      let table : Perm db.raw_events ((x ∷ xs) ++ (rest ++ old)) =
        subst (λ f. Perm db.raw_events (f ++ (rest ++ old))) read
          (raw-perm db.raw_events (cursor c db) limit) in
      let P = λ (e : RawEvent).
        is_covered db.raw_events (cursor c db) db.processed_rollup_events c e ≡ true in
      let before_table = All-perm _ table h.covered in
      let before_old =
        (All-append_inv P rest old (All-append_inv P (x ∷ xs) (rest ++ old) before_table).1).1 in
      let Q = λ (e : RawEvent). covered_after e ≡ true in
      let parts =
        All-append Q (x ∷ xs) (rest ++ old) read-covered
          (All-append Q rest old (left-covered at h.apart) (passed-covered before_old)) in
      record {
        distinct = rw (raw_events-after c db x xs []) h.distinct;
        apart = rw (raw_events-after c db x xs []) h.apart;
        covered =
            rw (offset-after c db x xs, raw_events-after c db x xs [], processed-after c db x xs [])
              (All-perm covered_after (Perm.symm table) parts);
      }

  -- and leaves fewer events pending
  after-pending :
      created_at_of (last_of x xs).id db.raw_events ≡ some (last_of x xs).created_at
      → suc (
          number_of
            (is_pending (after c db x xs).raw_events (cursor c (after c db x xs)))
            (after c db x xs).raw_events)
        ≤ number_of (is_pending db.raw_events (cursor c db)) db.raw_events
  after-pending at =
      rw (offset-after c db x xs, raw_events-after c db x xs [])
        (ground (
          arith,
          number_of-pending-after db.raw_events (cursor c db) limit x xs read at,
          number_of-pending db.raw_events (cursor c db) limit,
          ap length read,
        ))

-- how many events the worker has still to read
abbrev pub pending : String → Database → ℕ
pending c db = number_of (is_pending db.raw_events (cursor c db)) db.raw_events

pub after_fetched-IsCaughtUp :
    (c : String) (db : Database) (limit : ℕ) (events : List RawEvent)
    → get_events_after db.raw_events (cursor c db) limit ≡ events
    → All (IsIndexed db.raw_events) events
    → IsCaughtUp c db
    → IsCaughtUp c (after_fetched c db events)
unfolding after_fetched
after_fetched-IsCaughtUp c db limit [] read i h = h
after_fetched-IsCaughtUp c db limit (x ∷ xs) read i h =
    after-IsCaughtUp c db limit x xs read (All-last_of (IsIndexed db.raw_events) x xs i) h

pub after_fetched-pending :
    (c : String) (db : Database) (limit : ℕ) (events : List RawEvent)
    → get_events_after db.raw_events (cursor c db) limit ≡ events
    → All (IsIndexed db.raw_events) events
    → 1 ≤ limit
    → pending c (after_fetched c db events) ≤ pending c db - 1
unfolding after_fetched
after_fetched-pending c db limit [] read i n =
    ground (arith, pending_none db.raw_events (cursor c db) limit n read)
after_fetched-pending c db limit (x ∷ xs) read i n =
    ground
      (arith, after-pending c db limit x xs read (All-last_of (IsIndexed db.raw_events) x xs i))
