-- ===== src/Tests/Rollup.antt =====
-- The rollup path at concrete inputs.
use analytics_pipeline.Prelude.{
  [], ◌∷◌, some, get, update, ℕ_discrete, String_discrete, ◌≡◌, refl, arith,
}
use analytics_pipeline.Result.{ok}
use analytics_pipeline.Moment.{Datetime_discrete, HasClockTime}
use analytics_pipeline.Records.{RollupKey_discrete, minute, hour, day}
use analytics_pipeline.Rollup.Buckets.{
  minute_bucket, hour_bucket, day_bucket, bucket_ts, bucket_of, rollup_key,
}
use analytics_pipeline.Rollup.Accum.{add, initialise, row_of}
use analytics_pipeline.Rollup.Summary.{summarise, combine}
use analytics_pipeline.Rollup.Aggregate.{
  or_new, accumulate, aggregate_event, aggregate_from, aggregate_batch, agg_of,
}
use analytics_pipeline.Rollup.Aggregate.Laws.{amounts_at, row_at, row_at-aggregate_batch}
use analytics_pipeline.Rollup.Table.{
  RollupTable, on_conflict, upsert_rows, has_distinct_keys, batch_upsert,
}
use analytics_pipeline.Database.{empty_database, rollup_of}
use analytics_pipeline.Rollup.Single.{upsert_each, batch_upsert-upsert_each}
use analytics_pipeline.Tests.Data.{at, first, second, third}

unfoldable pub program : Unit {0}
unfolding get update RollupKey_discrete ℕ_discrete String_discrete Datetime_discrete rollup_key
    bucket_of bucket_ts add initialise row_of or_new accumulate aggregate_event aggregate_from
    aggregate_batch agg_of amounts_at row_at on_conflict upsert_rows has_distinct_keys batch_upsert
    summarise combine
program = tt

-- test_minute_bucket_truncates_to_minute and its neighbours
buckets :
    (minute_bucket (at 14 37 42) ≡ record (at 14 37 0) { microsecond = 0 })
    × (hour_bucket (at 14 37 42) ≡ record (at 14 0 0) { microsecond = 0 })
    × (day_bucket (at 14 37 42) ≡ record (at 0 0 0) { microsecond = 0 })
unfolding minute_bucket hour_bucket day_bucket
buckets = (refl, refl, refl)

-- test_events_in_same_minute_bucket_are_merged
merged :
    row_at (rollup_key minute first) (agg_of minute (aggregate_batch (first ∷ second ∷ third ∷ [])))
    ≡ some (record {
      count = 3;
      amount_sum_cents = 5250;
      amount_min_cents = 250;
      amount_max_cents = 4000;
    })
unfolding program
merged = refl

noon-HasClockTime : HasClockTime (at 14 37 42)
noon-HasClockTime = omega arith

row_at-aggregate_batch_example :
    row_at (rollup_key day first) (agg_of day (aggregate_batch (first ∷ third ∷ [])))
    ≡ summarise (amounts_at day (rollup_key day first) (first ∷ third ∷ []))
row_at-aggregate_batch_example =
    row_at-aggregate_batch day (rollup_key day first) (first ∷ third ∷ [])

batch_upsert-upsert_each_example :
    (t : RollupTable) × (batch_upsert
        (agg_of hour (aggregate_batch (first ∷ second ∷ [])))
        (rollup_of hour (empty_database (7 ∷ [])))
      ≡ ok t)
    × (get RollupKey_discrete (rollup_key hour first) t
        ≡ get RollupKey_discrete
            (rollup_key hour first)
            (rollup_of hour (upsert_each (first ∷ second ∷ []) (empty_database (7 ∷ [])))))
batch_upsert-upsert_each_example =
    batch_upsert-upsert_each hour (rollup_key hour first) (first ∷ second ∷ [])
      (empty_database (7 ∷ []))
