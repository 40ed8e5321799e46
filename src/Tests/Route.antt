-- ===== src/Tests/Route.antt =====
-- GET /metrics at concrete inputs.
use analytics_pipeline.Prelude.{none, some, ◌≡◌, refl}
use analytics_pipeline.Result.{type_error}
use analytics_pipeline.Settings.{default_settings}
use analytics_pipeline.Query.Metrics.{
  answering, if_cached, respond, query_rollups, get_merchant_metrics,
}
use analytics_pipeline.Query.Route.{
  aware, naive, http_exception, raised, or_default, check_range, in_utc, metrics_reply, get_metrics,
}
use analytics_pipeline.Tests.Query.{query_program, clock, db}

route_program : Unit {0}
unfolding query_program if_cached respond query_rollups get_merchant_metrics or_default check_range
    in_utc metrics_reply get_metrics
route_program = tt

-- both ends without a time zone are taken in UTC
both_naive :
    get_metrics default_settings answering 7
      (some (naive (clock 7)))
      (some (naive (clock 12)))
      (clock 23)
      (clock 0)
      db
    ≡ get_metrics default_settings answering 7
        (some (aware (clock 7)))
        (some (aware (clock 12)))
        (clock 23)
        (clock 0)
        db
unfolding route_program
both_naive = refl

-- an empty range is refused
empty_range :
    get_metrics default_settings answering 7
      (some (aware (clock 9)))
      (some (aware (clock 9)))
      (clock 23)
      (clock 0)
      db
    ≡ http_exception 400
unfolding route_program
empty_range = refl

-- a start without a time zone cannot be compared with the end that the route puts in
naive_start :
    get_metrics default_settings answering 7 (some (naive (clock 7))) none (clock 23) (clock 0) db
    ≡ raised type_error
unfolding route_program
naive_start = refl

-- without ends: the last day
last_day :
    get_metrics default_settings answering 7 none none (clock 23) (clock 0) db
    ≡ get_metrics default_settings answering 7
        (some (aware (clock 0)))
        (some (aware (clock 23)))
        (clock 23)
        (clock 0)
        db
unfolding route_program
last_day = refl
