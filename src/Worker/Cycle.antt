-- ===== src/Worker/Cycle.antt =====
-- `_process_batch` of app/workers/rollup_worker.py as a whole, with what follows the commit, and
-- `_process_loop`, `_handle_shutdown` and `_log_late_events`.
use analytics_pipeline.Prelude.{
  ℕ, zero, suc, ◌+◌, ◌-◌, ◌*◌, String, Bool, true, false, List, [], ◌∷◌, ◌++◌, length, ltb,
  if◌then◌else◌, last_of, filter,
}
use analytics_pipeline.Result.{Result, ok, err, redis_unavailable}
use analytics_pipeline.Settings.{Settings}
use analytics_pipeline.Moment.{Datetime, micros}
use analytics_pipeline.Records.{RawEvent}
use analytics_pipeline.Rollup.Buckets.{bucket_ts}
use analytics_pipeline.Database.{Database}
use analytics_pipeline.Board.SortedSets.{SortedSets}
use analytics_pipeline.Board.Update.{update_leaderboard}
use analytics_pipeline.Redis.Strings.{Strings}
use analytics_pipeline.Redis.Keys.{heartbeat_key}
use analytics_pipeline.Worker.Batch.{Batch, process_batch}

-- What a worker reads and writes, and what it has logged and measured.
pub record Worker (State : Type 0) : Type 0 where
  -- `_worker_id`
  pub worker_id : String
  pub running : Bool
  -- `_notify_event` is set
  pub notified : Bool
  pub database : Database
  pub redis : State
  -- ROLLUP_BATCHES
  pub rollup_batches : ℕ
  -- the values of ROLLUP_LAG, in microseconds
  pub rollup_lags : List ℕ
  -- the events reported as late
  pub late_events : List RawEvent

-- What happens around one round of the loop: the number of periods to which Redis answers, whether
-- it answers to the heartbeat, the time, and whether a signal arrives meanwhile.
pub record Turn : Type 0 where
  pub answered : ℕ
  pub beats : Bool
  pub now : Datetime
  pub signalled : Bool

-- lag_s > worker_late_event_threshold_s
unfoldable pub is_late : Settings → Datetime → RawEvent → Bool
is_late settings now event =
    ltb (micros (bucket_ts event) + settings.worker_late_event_threshold_s * 1000000) (micros now)

-- `_log_late_events`
unfoldable pub log_late_events : Settings → Datetime → List RawEvent → List RawEvent
log_late_events settings now = filter (is_late settings now)

-- `_handle_shutdown`
unfoldable pub handle_shutdown : {State : Type 0} → Worker State → Worker State
handle_shutdown w = record w { running = false; notified = true }

-- nothing processed: wait for the event or the timeout, and clear it
unfoldable pub wait_if_idle : {State : Type 0} → Worker State × Result ℕ → Worker State
wait_if_idle (w, ok zero) = record w { notified = false }
wait_if_idle (w, ok (suc n)) = w
wait_if_idle (w, err e) = w

unfoldable pub signal : {State : Type 0} → Bool → Worker State → Worker State
signal true w = handle_shutdown w
signal false w = w

-- after the heartbeat: late events and the two metrics
unfoldable pub measured :
    {State : Type 0} → Settings → Turn → RawEvent → List RawEvent → Worker State → Worker State
measured settings t e es w = record w {
  late_events = w.late_events ++ log_late_events settings t.now (e ∷ es);
  rollup_batches = w.rollup_batches + 1;
  rollup_lags = w.rollup_lags ++ (micros t.now - micros (bucket_ts (last_of e es))) ∷ [];
}

module _ {State : Type 0} (sets : SortedSets State) (strings : Strings State)
    (isoformat : Datetime → String) (settings : Settings) where
  -- `set_worker_heartbeat`
  unfoldable pub set_worker_heartbeat : String → Datetime → State → State
  set_worker_heartbeat worker_id now = strings.set (heartbeat_key worker_id) (isoformat now) 60

  -- if new_events: await self._update_leaderboard(new_events)
  unfoldable pub update_new : ℕ → List RawEvent → State → State
  update_new answered [] s = s
  update_new answered (e ∷ es) s = update_leaderboard sets answered (e ∷ es) s

  -- after the commit
  unfoldable pub after_commit :
      Turn → Batch → List RawEvent → Worker State → Worker State × Result ℕ
  after_commit t batch [] w = (w, ok 0)
  after_commit t batch (e ∷ es) w =
      let w' = record w { redis = update_new t.answered batch.new_events w.redis } in
      if t.beats
      then (
        measured settings t e es
            (record w' { redis = set_worker_heartbeat w.worker_id t.now w'.redis }),
        ok (length (e ∷ es)),
      )
      else (w', err redis_unavailable)

  -- the transaction, and what follows it; a transaction that fails changes nothing
  unfoldable pub after_transaction :
      Turn → Result (Database × Batch) → Worker State → Worker State × Result ℕ
  after_transaction t (ok (db, batch)) w =
      after_commit t batch batch.events (record w { database = db })
  after_transaction t (err e) w = (w, err e)

  unfoldable pub process_batch_and_report : Turn → Worker State → Worker State × Result ℕ
  process_batch_and_report t w = after_transaction t (process_batch settings w.database) w

  -- one round of the loop; an exception is logged, and the loop goes on
  unfoldable pub round : Turn → Worker State → Worker State
  round t w =
      let (w', processed) = process_batch_and_report t w in
      wait_if_idle (signal t.signalled w', processed)

  -- `_process_loop`, as long as it runs
  unfoldable pub process_loop : List Turn → Worker State → Worker State
  process_loop [] w = w
  process_loop (t ∷ turns) w =
      let rest = process_loop turns (round t w) in if w.running then rest else w
