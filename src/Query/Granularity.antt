-- ===== src/Query/Granularity.antt =====
-- `_select_granularity` of app/services/query_service.py and the checks of GET /metrics in
-- app/api/routes/metrics.py.
use analytics_pipeline.Prelude.{
  ℕ, ◌*◌, ◌-◌, ◌/◌, ◌≤◌, Bool, true, false, leb, if◌then◌else◌, ◌≡◌, arith,
}
use analytics_pipeline.Settings.{Settings}
use analytics_pipeline.Moment.{Datetime, micros, at_most}
use analytics_pipeline.Records.{RollupGranularity, minute, hour, day}
use analytics_pipeline.Rollup.Buckets.{width}

-- the granularity, and how many seconds the cache keeps the answer; a range whose end is before its
-- start has negative hours
unfoldable pub select_granularity : Settings → Datetime → Datetime → RollupGranularity × ℕ
select_granularity settings start end =
    let range = micros end - micros start in
    if leb range (3 * 3600000000)
    then (minute, settings.cache_ttl_live)
    else if leb range (720 * 3600000000)
    then (hour, settings.cache_ttl_historical)
    else (day, settings.cache_ttl_archive)

-- what the route answers instead of a query: status 400
unfoldable pub range_error : Datetime → Datetime → Bool
range_error start end =
    if at_most end start then true else leb 366 ((micros end - micros start) / 86400000000)

-- A range that the route accepts spans at most 720 buckets of the granularity selected for it.
pub select_granularity-points :
    (settings : Settings) (start end : Datetime)
    → range_error start end ≡ false
    → (micros end - micros start) / width (select_granularity settings start end).0 ≤ 720
unfolding range_error select_granularity at_most
select_granularity-points settings start end h = ground arith
