-- ===== src/Worker/Live.antt =====
-- `_process_batch` of app/workers/rollup_worker.py, again and again: every stored event is counted
-- in the end, if no two have one moment of creation.
pub mod Pending
pub mod Advance
pub mod Caught
use analytics_pipeline.Prelude.{
  ℕ, zero, suc, ◌+◌, ◌-◌, ◌≤◌, String, Bool, true, false, List, [], ◌∷◌, ◌++◌, Option, none, some,
  length, get, filter, filter-All_self, All, All-map, All-both, All-contains, All-append,
  All-append_inv, All-last_of, All-perm, number_of, number_of_none_inv, number_of-le-length,
  contains, IsDistinct, ℕ_discrete, ◌≡◌, refl, sym, ap, subst, ◌∙◌, arith, last_of, if◌then◌else◌,
}
use mathlib.Core.List.{Perm}
use mathlib.Core.List.Perm
use analytics_pipeline.Settings.{Settings}
use analytics_pipeline.Moment.{before}
use analytics_pipeline.Records.{RawEvent, RollupKey, RollupKey_discrete, RollupGranularity}
use analytics_pipeline.Database.{Database, rollup_of}
use analytics_pipeline.Worker.Fetch.{get_events_after, created_at_of, later_than}
use analytics_pipeline.Worker.Batch.{
  ids, get_consumer_offset, last_event_id_of, process_batch, fetch, committed,
}
use analytics_pipeline.Worker.Commit.{after}
use analytics_pipeline.Worker.Totals.{total}
use analytics_pipeline.Worker.Exact.{
  marked, markers_after, marked-after, IsExact, raw_events-after, processed-after,
}
use analytics_pipeline.Worker.Replay.{after_fetched, batch-IsExact}
use analytics_pipeline.Worker.Idempotent.{committed-batch, raw_events-after_fetched}
use analytics_pipeline.Worker.Cursor.{
  run_batches, IsIndexed, fetched-All, created_at_of_self, offset-after,
}
use analytics_pipeline.Worker.Live.Pending.{
  is_pending, moments, passed, passed-pending, left, raw-perm, number_of-pending, pending_none,
}
use analytics_pipeline.Worker.Live.Advance.{passed-after, number_of-pending-after, left-after}
use analytics_pipeline.Worker.Live.Caught.{
  is_covered, cursor, IsCaughtUp, pending, after_fetched-IsCaughtUp, after_fetched-pending,
}

batch-IsCaughtUp :
    (s : Settings) (db : Database)
    → IsCaughtUp s.worker_id db
    → IsCaughtUp s.worker_id (committed db (process_batch s db))
batch-IsCaughtUp s db h =
    let indexed = created_at_of_self db.raw_events h.distinct in
    rw (committed-batch s db h.distinct) (
      after_fetched-IsCaughtUp s.worker_id db s.worker_batch_size (fetch s db)
        (unfold fetch in refl)
        (unfold fetch in
          fetched-All (IsIndexed db.raw_events) db.raw_events _ s.worker_batch_size indexed)
        h)

batch-pending :
    (s : Settings) (db : Database)
    → IsDistinct ℕ_discrete (ids db.raw_events)
    → 1 ≤ s.worker_batch_size
    → pending s.worker_id (committed db (process_batch s db)) ≤ pending s.worker_id db - 1
batch-pending s db h n =
    let indexed = created_at_of_self db.raw_events h in
    rw (committed-batch s db h) (
      after_fetched-pending s.worker_id db s.worker_batch_size (fetch s db) (unfold fetch in refl)
        (unfold fetch in
          fetched-All (IsIndexed db.raw_events) db.raw_events _ s.worker_batch_size indexed)
        n)

-- of the events that are covered and not pending, each is marked
covered-marked :
    (raw : List RawEvent) (last : Option ℕ) (table : List (String × ℕ)) (c : String)
    (es : List RawEvent)
    → All (λ e. is_covered raw last table c e ≡ true) es
    → All (λ e. is_pending raw last e ≡ false) es
    → All (λ e. marked table c e ≡ true) es
unfolding is_covered
covered-marked raw last table c [] h k = tt
covered-marked raw last table c (e ∷ es) h k =
    (ground (arith, h.0, k.0), covered-marked raw last table c es h.1 k.1)

-- with nothing pending, every event is marked, so that the rows hold all of them
total_covered :
    (c : String) (db : Database)
    → IsExact c db
    → IsCaughtUp c db
    → pending c db ≡ 0
    → (g : RollupGranularity) (k : RollupKey)
    → get RollupKey_discrete k (rollup_of g db) ≡ total g k db.raw_events
total_covered c db exact caught none_pending g k =
    let read =
      number_of_none_inv (is_pending db.raw_events (cursor c db)) db.raw_events none_pending in
    let all =
      covered-marked db.raw_events (cursor c db) db.processed_rollup_events c db.raw_events
        caught.covered read in
    exact.exact g k
    ∙ ap (total g k) (filter-All_self (marked db.processed_rollup_events c) db.raw_events all)

run_batches-pending :
    (n : ℕ) (s : Settings) (db : Database)
    → IsExact s.worker_id db
    → IsCaughtUp s.worker_id db
    → 1 ≤ s.worker_batch_size
    → pending s.worker_id db ≤ n
    → IsExact s.worker_id (run_batches n s db)
      × IsCaughtUp s.worker_id (run_batches n s db)
      × (pending s.worker_id (run_batches n s db) ≡ 0)
      × ((run_batches n s db).raw_events ≡ db.raw_events)
unfolding run_batches
run_batches-pending zero s db exact caught size h = (exact, caught, omega (arith, h), refl)
run_batches-pending (suc n) s db exact caught size h =
    let next = committed db (process_batch s db) in
    let rest =
      run_batches-pending n s next (batch-IsExact s db exact) (batch-IsCaughtUp s db caught) size
        (omega (arith, h, batch-pending s db caught.distinct size)) in
    (
      rest.0,
      rest.1,
      rest.2,
      rest.3
          ∙ (rw (committed-batch s db caught.distinct)
              (raw_events-after_fetched s.worker_id db (fetch s db))),
    )

-- Every event is counted in the end: if the tables are exact, event ids and moments of creation are
-- distinct, the cursor has passed no event without a marker, and a batch reads at least one event,
-- then after as many batches as there are events every row is the summary of all stored events.
pub run_batches-total :
    (n : ℕ) (s : Settings) (db : Database) (g : RollupGranularity) (k : RollupKey)
    → IsExact s.worker_id db
    → IsCaughtUp s.worker_id db
    → 1 ≤ s.worker_batch_size
    → length db.raw_events ≤ n
    → get RollupKey_discrete k (rollup_of g (run_batches n s db)) ≡ total g k db.raw_events
run_batches-total n s db g k exact caught size h =
    let enough =
      number_of-le-length (is_pending db.raw_events (cursor s.worker_id db)) db.raw_events in
    let end = run_batches-pending n s db exact caught size (omega (arith, h, enough)) in
    total_covered s.worker_id (run_batches n s db) end.0 end.1 end.2 g k ∙ ap (total g k) end.3
