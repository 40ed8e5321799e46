-- ===== src/Tests/Again.antt =====
-- Two calls of `get_merchant_metrics` in a row, at concrete inputs.
use analytics_pipeline.Prelude.{◌≡◌, refl, some, [], ◌∷◌, false}
use analytics_pipeline.Result.{ok, err, type_error}
use analytics_pipeline.Settings.{default_settings}
use analytics_pipeline.Records.{hour}
use analytics_pipeline.Database.{empty_database}
use analytics_pipeline.Query.Metrics.{
  MetricsResponse, MetricsCache, query, answering, if_cached, respond, query_rollups, model_dump,
  get_merchant_metrics,
}
use analytics_pipeline.Query.Again.{get_merchant_metrics-again}
use analytics_pipeline.Tests.Query.{query_program, clock, db}

again_program : Unit {0}
unfolding query_program if_cached respond query_rollups get_merchant_metrics query model_dump
again_program = tt

abbrev answer : MetricsResponse
answer = record {
  merchant_id = 7;
  start = clock 7;
  end = clock 12;
  granularity = hour;
  total_volume_cents = 370;
  total_count = 5;
  success_rate = some (4, 5);
  points =
      record { bucket = clock 8; volume_cents = 20; count = 1 }
      ∷ record { bucket = clock 9; volume_cents = 350; count = 4 }
      ∷ [];
  cache_hit = false;
}

-- what Redis answers after it
abbrev with_answer : MetricsCache
with_answer = record { lookup = ok (some (model_dump answer)); counted = ok tt; stored = ok tt }

first_call :
    get_merchant_metrics default_settings answering 7 (clock 7) (clock 12) db
    ≡ ok (answer, some (model_dump answer, 60))
unfolding again_program
first_call = refl

get_merchant_metrics-again_example :
    get_merchant_metrics default_settings with_answer 7
      (clock 7)
      (clock 12)
      (empty_database (7 ∷ []))
    ≡ err type_error
get_merchant_metrics-again_example =
    get_merchant_metrics-again default_settings answering with_answer 7 (clock 7) (clock 12) db
      (empty_database (7 ∷ [])) answer (model_dump answer) 60 first_call refl refl
