-- ===== src/Tests/Fits.antt =====
-- The width of the rollup columns at concrete inputs.
use analytics_pipeline.Prelude.{◌^◌, ◌<◌, length, refl, arith, ◌∷◌, []}
use analytics_pipeline.Records.{RollupRow, day}
use analytics_pipeline.Worker.Fits.{IsBounded, Reach-IsBounded}
use analytics_pipeline.Tests.Data.{small_batches}
use analytics_pipeline.Tests.Worker.{worker_program, replayed, history}
use analytics_pipeline.Tests.Loop.{this_day}

abbrev one_payment : RollupRow
one_payment = record {
  count = 1;
  amount_sum_cents = 1000;
  amount_min_cents = 1000;
  amount_max_cents = 1000;
}

Reach-IsBounded_example :
    IsBounded (length replayed.raw_events) one_payment
    × (one_payment.count < 2 ^ 63)
    × (one_payment.amount_sum_cents < 2 ^ 63)
unfolding worker_program
Reach-IsBounded_example =
    Reach-IsBounded small_batches (7 ∷ []) day this_day one_payment history (omega arith, tt)
      (omega arith) refl
