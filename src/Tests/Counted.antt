-- ===== src/Tests/Counted.antt =====
-- The metrics after a history, at concrete inputs.
use analytics_pipeline.Prelude.{ℕ, ◌≤◌, All, arith, [], ◌∷◌, some, map, length, sum, ◌≡◌, refl}
use analytics_pipeline.Result.{ok}
use analytics_pipeline.Records.{RawEvent, hour}
use analytics_pipeline.Query.Metrics.{MetricsResponse, answering, model_dump, get_merchant_metrics}
use analytics_pipeline.Query.Counted.{in_range, counted_in, Reach-get_merchant_metrics}
use analytics_pipeline.Moment.{is_leap, at_most, micros, ordinal}
use analytics_pipeline.Moment.Calendar.{IsMoment, days_in_month}
use analytics_pipeline.Rollup.Buckets.{bucket_ts}
use analytics_pipeline.Worker.Exact.{empty-IsExact}
use analytics_pipeline.Worker.Replay.{Reach-IsExact}
use analytics_pipeline.Query.Granularity.{range_error}
use analytics_pipeline.Query.Bounded.{get_merchant_metrics-le}
use analytics_pipeline.Tests.Data.{first, small_batches}
use analytics_pipeline.Tests.Query.{clock}
use analytics_pipeline.Tests.Worker.{worker_program, replayed, history}

counted_program : Unit {0}
unfolding bucket_ts days_in_month is_leap range_error at_most micros ordinal
counted_program = tt

-- the one event of the history, counted once
counted_first : counted_in hour 7 (clock 14) (clock 15) "rollup-worker-1" replayed ≡ first ∷ []
unfolding worker_program in_range counted_in
counted_first = refl

-- which is in no hour of the next range
counted_later : counted_in hour 7 (clock 15) (clock 16) "rollup-worker-1" replayed ≡ []
unfolding worker_program in_range counted_in
counted_later = refl

Reach-get_merchant_metrics_example :
    (response : MetricsResponse) × (ttl : ℕ) × (get_merchant_metrics small_batches answering 7
        (clock 14)
        (clock 15)
        replayed
      ≡ ok (response, some (model_dump response, ttl)))
    × (response.total_count
        ≡ length
            (counted_in response.granularity 7 (clock 14) (clock 15) "rollup-worker-1" replayed))
    × (response.total_volume_cents
        ≡ sum (
            map
              (λ (e : RawEvent). e.amount_cents)
              (counted_in response.granularity 7 (clock 14) (clock 15) "rollup-worker-1" replayed)))
Reach-get_merchant_metrics_example =
    Reach-get_merchant_metrics small_batches (7 ∷ []) 7 (clock 14) (clock 15) history

-- the first event arrived at a moment that exists
first-IsMoment : IsMoment (bucket_ts first)
unfolding counted_program
first-IsMoment = record {
  year_from = omega arith;
  month_from = omega arith;
  month_to = omega arith;
  day_from = omega arith;
  day_to = omega arith;
  clock = record {
    hour_lt = omega arith;
    minute_lt = omega arith;
    second_lt = omega arith;
    microsecond_lt = omega arith;
  };
}

pub replayed-valid : All (λ e. IsMoment (bucket_ts e)) replayed.raw_events
unfolding worker_program
replayed-valid = (first-IsMoment, tt)

get_merchant_metrics-le_example :
    (response : MetricsResponse) × (ttl : ℕ) × (get_merchant_metrics small_batches answering 7
        (clock 14)
        (clock 15)
        replayed
      ≡ ok (response, some (model_dump response, ttl)))
    × (length response.points ≤ 721)
unfolding counted_program
get_merchant_metrics-le_example =
    get_merchant_metrics-le small_batches "rollup-worker-1" 7 (clock 14) (clock 15) replayed
      (Reach-IsExact small_batches (empty-IsExact "rollup-worker-1" (7 ∷ [])) history)
      replayed-valid refl
