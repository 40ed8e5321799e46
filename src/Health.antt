-- ===== src/Health.antt =====
-- `health_check` of app/api/routes/health.py. What the database and Redis answer are arguments.
use analytics_pipeline.Prelude.{
  ℕ, ◌-◌, ◌*◌, max, Option, none, some, ltb, if◌then◌else◌, ◌≡◌, arith,
}
use analytics_pipeline.Result.{Result, ok, err}
use analytics_pipeline.Settings.{Settings}
use analytics_pipeline.Moment.{Datetime, micros}
use analytics_pipeline.Records.{ConsumerOffset}
use analytics_pipeline.Database.{Database}
use analytics_pipeline.Worker.Batch.{get_consumer_offset}

-- `up` is "ok"
pub data Status : Type 0 where
  up degraded down unknown : Status

pub record HealthResponse : Type 0 where
  pub status : Status
  pub database : Status
  pub redis : Status
  pub rollup_worker : Status
  -- in microseconds, before it is rounded to tenths of a second
  pub rollup_lag : Option ℕ

-- if offset and offset.last_event_at: the time since then; a time in the future counts as no lag
unfoldable pub lag_since : Datetime → Option Datetime → Option ℕ
lag_since now none = none
lag_since now (some last) = some (micros now - micros last)

unfoldable pub offset_lag : Datetime → Option ConsumerOffset → Option ℕ
offset_lag now none = none
offset_lag now (some offset) = lag_since now offset.last_event_at

unfoldable pub database_status : Result Database → Status
database_status (ok db) = up
database_status (err e) = down

unfoldable pub database_lag : Settings → Datetime → Result Database → Option ℕ
database_lag settings now (ok db) = offset_lag now (get_consumer_offset db settings.worker_id)
database_lag settings now (err e) = none

unfoldable pub redis_status : Result (Unit {0}) → Status
redis_status (ok t) = up
redis_status (err e) = degraded

-- `tenths` is the rounding to tenths of a second
unfoldable pub worker_status : (ℕ → ℕ) → Settings → Option ℕ → Status
worker_status tenths settings none = unknown
worker_status tenths settings (some lag) =
    if ltb (settings.worker_lag_threshold_s * 10) (tenths lag) then degraded else up

-- if overall == "ok": overall = "degraded"
unfoldable pub lower : Status → Status
lower up = degraded
lower degraded = degraded
lower down = down
lower unknown = unknown

-- a part that is degraded lowers the whole
unfoldable pub with_part : Status → Status → Status
with_part overall up = overall
with_part overall degraded = lower overall
with_part overall down = overall
with_part overall unknown = overall

unfoldable pub health_check :
    (ℕ → ℕ) → Settings → Datetime → Result Database → Result (Unit {0}) → HealthResponse
health_check tenths settings now database redis =
    let lag = database_lag settings now database in
    let overall = with_part (database_status database) (redis_status redis) in
    let worker = worker_status tenths settings lag in
    record {
      status = with_part overall worker;
      database = database_status database;
      redis = redis_status redis;
      rollup_worker = worker;
      rollup_lag = lag;
    }

-- how bad a status is; a worker that nothing is known of is not
abbrev pub severity : Status → ℕ
severity up = 0
severity unknown = 0
severity degraded = 1
severity down = 2

-- The status of the whole is as bad as that of its worst part.
pub health_check-worst :
    (tenths : ℕ → ℕ) (settings : Settings) (now : Datetime) (database : Result Database)
    (redis : Result (Unit {0}))
    → severity (health_check tenths settings now database redis).status
      ≡ max (severity (health_check tenths settings now database redis).database) (
          max
            (severity (health_check tenths settings now database redis).redis)
            (severity (health_check tenths settings now database redis).rollup_worker))
unfolding health_check with_part lower database_status redis_status worker_status
health_check-worst tenths settings now database redis = ground arith
