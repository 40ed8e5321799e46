-- ===== src/Tests/Nightly.antt =====
-- The nightly scripts at concrete inputs.
use analytics_pipeline.Prelude.{[], ◌∷◌, get, contains, ℕ_discrete, ◌≡◌, ◌≢◌, refl, ap, arith}
use analytics_pipeline.Moment.{Datetime}
use analytics_pipeline.Records.{RollupKey_discrete}
use analytics_pipeline.Worker.Exact.{empty-IsExact}
use analytics_pipeline.Nightly.Compaction.{midnight, in_day, compact_day_rollup}
use analytics_pipeline.Nightly.Reached.{empty-IsSummed}
use analytics_pipeline.Nightly.Unchanged.{AreHours}
use analytics_pipeline.Nightly.Report.{AreDated, Reach-compact_day_rollup}
use analytics_pipeline.Nightly.Snapshot.{
  SnapshotKey, SnapshotKey_discrete, snapshot_leaderboard, snapshot_leaderboard-again,
}
use analytics_pipeline.Nightly.Partitions.{
  Partitions, IsDone, create_partition, create_from, create_partitions, create_partitions-again,
}
use analytics_pipeline.Result.{Result, err, check_violation}
use analytics_pipeline.Tests.Data.{small_batches}
use analytics_pipeline.Tests.Worker.{worker_program, replayed, history}
use analytics_pipeline.Tests.Loop.{this_day}

nightly_program : Unit {0}
unfolding worker_program midnight in_day
nightly_program = tt

replayed-AreHours : AreHours replayed.rollup_hour
unfolding nightly_program
replayed-AreHours = (
  record {
    hour_lt = omega arith;
    minute_lt = omega arith;
    second_lt = omega arith;
    microsecond_lt = omega arith;
  },
  tt,
)

replayed-AreDated : AreDated (midnight 2026 5 12) replayed.rollup_hour
unfolding nightly_program
replayed-AreDated = ((λ h. refl), tt)

Reach-compact_day_rollup_example :
    (get RollupKey_discrete this_day (compact_day_rollup (midnight 2026 5 12) replayed).0.rollup_day
      ≡ get RollupKey_discrete this_day replayed.rollup_day)
    × ((compact_day_rollup (midnight 2026 5 12) replayed).1 ≡ [])
Reach-compact_day_rollup_example =
    Reach-compact_day_rollup small_batches 2026 5 12 this_day
      (empty-IsExact "rollup-worker-1" (7 ∷ [])) (empty-IsSummed (7 ∷ [])) history replayed-AreHours
      replayed-AreDated

abbrev today : SnapshotKey
today = record { period_start = midnight 2026 5 12; merchant_id = 7 }

abbrev yesterday : SnapshotKey
yesterday = record { period_start = midnight 2026 5 11; merchant_id = 7 }

apart : midnight 2026 5 11 ≢ midnight 2026 5 12
unfolding midnight
apart p = let e : 11 ≡ 12 = ap (λ (t : Datetime). t.day) p in omega (arith, e)

snapshot_leaderboard-again_example :
    (get SnapshotKey_discrete today
        (snapshot_leaderboard
          (midnight 2026 5 12)
          replayed
          (snapshot_leaderboard (midnight 2026 5 12) replayed []).0).0
      ≡ get SnapshotKey_discrete today (snapshot_leaderboard (midnight 2026 5 12) replayed []).0)
    × (get SnapshotKey_discrete yesterday (snapshot_leaderboard (midnight 2026 5 12) replayed []).0
        ≡ get SnapshotKey_discrete yesterday [])
snapshot_leaderboard-again_example =
    snapshot_leaderboard-again (midnight 2026 5 12) replayed [] today yesterday apart

-- a row of the day after the last partition keeps the script from going on
abbrev stopped : Partitions × Result (Unit {0})
stopped = create_partitions 739748 7 (739749 ∷ []) (739748 ∷ [])

stopped_result : stopped.1 ≡ err check_violation
unfolding create_partition create_from create_partitions contains ℕ_discrete
stopped_result = refl

stopped_tables : stopped.0.tables ≡ 739748 ∷ 739747 ∷ []
unfolding create_partition create_from create_partitions contains ℕ_discrete
stopped_tables = refl

create_partitions-again_example :
    IsDone (739749 ∷ []) 9 739747 stopped
    × ((create_partitions 739748 7 (739749 ∷ []) stopped.0.tables).0.tables ≡ stopped.0.tables)
    × ((create_partitions 739748 7 (739749 ∷ []) stopped.0.tables).0.created ≡ [])
    × ((create_partitions 739748 7 (739749 ∷ []) stopped.0.tables).1 ≡ stopped.1)
create_partitions-again_example = create_partitions-again 739748 7 (739749 ∷ []) (739748 ∷ [])
