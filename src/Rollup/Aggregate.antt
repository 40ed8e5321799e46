-- ===== src/Rollup/Aggregate.antt =====
-- `_aggregate_batch` of app/workers/rollup_worker.py. The proofs are in the module below.
pub mod Laws
use analytics_pipeline.Prelude.{ℕ, List, [], ◌∷◌, Option, none, some, Dict, update}
use analytics_pipeline.Records.{
  RawEvent, RollupKey, RollupKey_discrete, RollupGranularity, minute, hour, day,
}
use analytics_pipeline.Rollup.Buckets.{rollup_key}
use analytics_pipeline.Rollup.Accum.{BucketAccum, new, add}

abbrev pub AggMap : Type 0
AggMap = Dict RollupKey BucketAccum

pub record AggMaps : Type 0 where
  pub minute_agg : AggMap
  pub hour_agg : AggMap
  pub day_agg : AggMap

abbrev pub no_deltas : AggMaps
no_deltas = record { minute_agg = []; hour_agg = []; day_agg = [] }

-- the value of a defaultdict at a key: a new accumulator if the key is not there
unfoldable pub or_new : Option BucketAccum → BucketAccum
or_new none = new
or_new (some acc) = acc

-- agg[key].add(amount)
unfoldable pub accumulate : RollupKey → ℕ → AggMap → AggMap
accumulate key amount = update RollupKey_discrete key (λ acc. add (or_new acc) amount)

-- one round of the loop
unfoldable pub aggregate_event : AggMaps → RawEvent → AggMaps
aggregate_event m event = record {
  minute_agg = accumulate (rollup_key minute event) event.amount_cents m.minute_agg;
  hour_agg = accumulate (rollup_key hour event) event.amount_cents m.hour_agg;
  day_agg = accumulate (rollup_key day event) event.amount_cents m.day_agg;
}

unfoldable pub aggregate_from : AggMaps → List RawEvent → AggMaps
aggregate_from m [] = m
aggregate_from m (event ∷ events) = aggregate_from (aggregate_event m event) events

unfoldable pub aggregate_batch : List RawEvent → AggMaps
aggregate_batch events = aggregate_from no_deltas events

-- the map of a granularity
unfoldable pub agg_of : RollupGranularity → AggMaps → AggMap
agg_of minute m = m.minute_agg
agg_of hour m = m.hour_agg
agg_of day m = m.day_agg
