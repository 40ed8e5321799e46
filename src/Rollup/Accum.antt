-- ===== src/Rollup/Accum.antt =====
-- `_BucketAccum` of app/workers/rollup_worker.py: the delta of one (merchant, bucket, type) cell.
use analytics_pipeline.Prelude.{ℕ, ◌+◌, min, max, Bool, true, false, if◌then◌else◌}
use analytics_pipeline.Records.{RollupRow}

pub record BucketAccum : Type 0 where
  pub count : ℕ
  pub amount_sum : ℕ
  pub amount_min : ℕ
  pub amount_max : ℕ
  pub initialised : Bool

-- BucketAccum()
abbrev pub new : BucketAccum
new = record { count = 0; amount_sum = 0; amount_min = 0; amount_max = 0; initialised = false }

-- the first amount sets both extremes
unfoldable pub initialise : BucketAccum → ℕ → BucketAccum
initialise acc amount_cents =
    if acc.initialised
    then acc
    else record acc { amount_min = amount_cents; amount_max = amount_cents; initialised = true }

unfoldable pub add : BucketAccum → ℕ → BucketAccum
unfolding initialise
add acc amount_cents =
    let acc' = initialise acc amount_cents in
    record acc' {
      count = acc'.count + 1;
      amount_sum = acc'.amount_sum + amount_cents;
      amount_min = min acc'.amount_min amount_cents;
      amount_max = max acc'.amount_max amount_cents;
    }

-- the columns that a delta is written to
unfoldable pub row_of : BucketAccum → RollupRow
row_of acc = record {
  count = acc.count;
  amount_sum_cents = acc.amount_sum;
  amount_min_cents = acc.amount_min;
  amount_max_cents = acc.amount_max;
}
