-- ===== src/Query/Route.antt =====
-- GET /metrics/{merchant_id} of app/api/routes/metrics.py, from the query string on.
use analytics_pipeline.Prelude.{ℕ, Bool, Option, none, some, if◌then◌else◌}
use analytics_pipeline.Result.{Result, Error, ok, err, type_error}
use analytics_pipeline.Settings.{Settings}
use analytics_pipeline.Moment.{Datetime}
use analytics_pipeline.Database.{Database}
use analytics_pipeline.Query.Granularity.{range_error}
use analytics_pipeline.Query.Metrics.{
  MetricsResponse, CachedMetrics, MetricsCache, get_merchant_metrics,
}

-- a `datetime` with tzinfo, or without
pub data Moment : Type 0 where
  aware naive : Datetime → Moment

pub data MetricsReply : Type 0 where
  metrics : MetricsResponse → MetricsReply
  -- the status of an HTTPException
  http_exception : ℕ → MetricsReply
  -- any other exception
  raised : Error → MetricsReply

unfoldable pub or_default : Option Moment → Datetime → Moment
or_default none moment = aware moment
or_default (some given) moment = given

-- start >= end, and (end - start).days > 365: `datetime` neither compares nor subtracts a naive and
-- an aware one
unfoldable pub check_range : Moment → Moment → Result Bool
check_range (aware start) (aware end) = ok (range_error start end)
check_range (naive start) (naive end) = ok (range_error start end)
check_range (aware start) (naive end) = err type_error
check_range (naive start) (aware end) = err type_error

-- start.replace(tzinfo=timezone.utc)
unfoldable pub in_utc : Moment → Datetime
in_utc (aware moment) = moment
in_utc (naive moment) = moment

unfoldable pub metrics_reply : Result (MetricsResponse × Option (CachedMetrics × ℕ)) → MetricsReply
metrics_reply (ok (response, left)) = metrics response
metrics_reply (err e) = raised e

-- `get_metrics`; `day_ago` is now - timedelta(hours=24)
unfoldable pub get_metrics :
    Settings
    → MetricsCache
    → ℕ
    → Option Moment
    → Option Moment
    → (now day_ago : Datetime) → Database
    → MetricsReply
get_metrics settings redis merchant start end now day_ago db =
    let end' = or_default end now in
    let start' = or_default start day_ago in
    elim (check_range start' end') [
      | ok refused ↦
          if refused
          then http_exception 400
          else metrics_reply
              (get_merchant_metrics settings redis merchant (in_utc start') (in_utc end') db)
      | err e ↦ raised e
    ]
