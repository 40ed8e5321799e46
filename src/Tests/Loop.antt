-- ===== src/Tests/Loop.antt =====
-- The worker's loop at concrete inputs.
use analytics_pipeline.Prelude.{◌≤◌, ◌++◌, true, false, [], ◌∷◌, get, String, ◌≡◌, refl, arith}
use analytics_pipeline.Moment.{Datetime}
use analytics_pipeline.Records.{RollupKey, RollupKey_discrete, day}
use analytics_pipeline.Database.{rollup_of}
use analytics_pipeline.Board.Increments.{or_zero, volume}
use analytics_pipeline.Worker.Totals.{total}
use analytics_pipeline.Worker.Cycle.{Worker, Turn, process_loop}
use analytics_pipeline.Worker.Cursor.{run_batches}
use analytics_pipeline.Worker.Loop.{
  begun, is_signalled, process_loop-database, process_loop-signalled, process_loop-total,
}
use analytics_pipeline.Worker.Volume.{counted}
use analytics_pipeline.Worker.Scores.{process_loop-score}
use analytics_pipeline.Tests.Data.{at, small_batches}
use analytics_pipeline.Tests.Board.{may, none_yet}
use analytics_pipeline.Tests.Redis.{Store, sorted_sets, texts}
use analytics_pipeline.Tests.Worker.{worker_program, spread, spread-IsExact, spread-IsCaughtUp}

loop_program : Unit {0}
unfolding worker_program begun is_signalled counted
loop_program = tt

abbrev pub iso : Datetime → String
iso now = "2026-05-12T15:00:00+00:00"

abbrev pub idle : Worker Store
idle = record {
  worker_id = "worker-1";
  running = true;
  notified = false;
  database = spread;
  redis = record { sets = none_yet; texts = [] };
  rollup_batches = 0;
  rollup_lags = [];
  late_events = [];
}

-- Redis fails at the leaderboard, at the heartbeat, or not at all
abbrev unanswered : Turn
unanswered = record { answered = 0; beats = true; now = at 15 0 0; signalled = false }

abbrev pub missed : Turn
missed = record { answered = 5; beats = false; now = at 15 0 0; signalled = false }

abbrev pub fine : Turn
fine = record { answered = 5; beats = true; now = at 15 0 0; signalled = true }

process_loop-database_example :
    (process_loop sorted_sets texts iso small_batches (unanswered ∷ missed ∷ []) idle).database
    ≡ run_batches (begun (unanswered ∷ missed ∷ [])) small_batches spread
process_loop-database_example =
    process_loop-database sorted_sets texts iso small_batches (unanswered ∷ missed ∷ []) idle refl

process_loop-signalled_example :
    ((process_loop sorted_sets texts iso small_batches (missed ∷ fine ∷ []) idle).running ≡ false)
    × (process_loop sorted_sets texts iso small_batches ((missed ∷ fine ∷ []) ++ missed ∷ []) idle
        ≡ process_loop sorted_sets texts iso small_batches (missed ∷ fine ∷ []) idle)
unfolding loop_program
process_loop-signalled_example =
    process_loop-signalled sorted_sets texts iso small_batches (missed ∷ fine ∷ []) (missed ∷ [])
      idle refl

abbrev pub this_day : RollupKey
this_day = record {
  merchant_id = 7;
  bucket = record (at 0 0 0) { microsecond = 0 };
  event_type = "PAYMENT_CONFIRMED";
}

process_loop-total_example :
    get RollupKey_discrete this_day (
      rollup_of day
        (process_loop sorted_sets texts iso small_batches
          (unanswered ∷ missed ∷ fine ∷ [])
          idle).database)
    ≡ total day this_day spread.raw_events
unfolding loop_program
process_loop-total_example =
    process_loop-total sorted_sets texts iso small_batches (unanswered ∷ missed ∷ fine ∷ []) idle
      day this_day refl spread-IsExact spread-IsCaughtUp (omega arith) (omega arith)

process_loop-score_example :
    or_zero (
      sorted_sets.zscore may 7
        (process_loop sorted_sets texts iso small_batches (unanswered ∷ fine ∷ []) idle).redis)
    ≤ counted "rollup-worker-1" may 7
        (process_loop sorted_sets texts iso small_batches (unanswered ∷ fine ∷ []) idle).database
unfolding loop_program or_zero volume
process_loop-score_example =
    process_loop-score sorted_sets texts iso small_batches (λ worker_id value seconds p m s. refl)
      may 7 (unanswered ∷ fine ∷ []) idle spread-IsCaughtUp.distinct (omega arith)
