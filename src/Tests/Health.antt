-- ===== src/Tests/Health.antt =====
-- Health at concrete inputs.
use analytics_pipeline.Prelude.{ℕ, ◌/◌, max, ◌∷◌, [], some, ◌≡◌}
use analytics_pipeline.Result.{ok, err, redis_unavailable}
use analytics_pipeline.Settings.{default_settings}
use analytics_pipeline.Database.{Database, empty_database}
use analytics_pipeline.Health.{health_check, severity, health_check-worst}
use analytics_pipeline.Tests.Data.{at}

-- the worker has an event of 14:30 as its last
abbrev behind : Database
behind = record (empty_database (7 ∷ [])) {
  consumer_offsets =
      ("rollup-worker-1", record { last_event_id = some 1; last_event_at = some (at 14 30 0) })
      ∷ [];
}

-- rounding down stands for the rounding
abbrev tenths : ℕ → ℕ
tenths micros = micros / 100000

health_check-worst_example :
    severity
      (health_check tenths default_settings (at 14 37 0) (ok behind) (err redis_unavailable)).status
    ≡ max
        (severity
          (health_check tenths default_settings
            (at 14 37 0)
            (ok behind)
            (err redis_unavailable)).database)
        (max
          (severity
            (health_check tenths default_settings
              (at 14 37 0)
              (ok behind)
              (err redis_unavailable)).redis)
          (severity
            (health_check tenths default_settings
              (at 14 37 0)
              (ok behind)
              (err redis_unavailable)).rollup_worker))
health_check-worst_example =
    health_check-worst tenths default_settings (at 14 37 0) (ok behind) (err redis_unavailable)
