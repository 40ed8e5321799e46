-- ===== src/Tests/Query.antt =====
-- The read path at concrete inputs.
use analytics_pipeline.Prelude.{
  ℕ, String, List, [], ◌∷◌, some, get, update, filter, sort_by, insert_by, ℕ_discrete,
  String_discrete, ◌≡◌, refl, true,
}
use analytics_pipeline.Moment.{Datetime, Datetime_discrete, micros, ordinal, at_most}
use analytics_pipeline.Records.{RollupKey, RollupRow}
use analytics_pipeline.Rollup.Buckets.{hour_bucket}
use analytics_pipeline.Database.{Database, empty_database}
use analytics_pipeline.Query.Group.{Row, add_row, group_from, group_sums}
use analytics_pipeline.Query.Granularity.{select_granularity, range_error}
use analytics_pipeline.Query.Rollups.{
  selects, by_bucket, point, query_buckets, query_hour, count_type, query_success_rate,
}
use analytics_pipeline.Query.Leaderboard.{
  by_volume, confirmed_in, standing, standings, query_leaderboard_from_db, month_start, period_end,
}
use analytics_pipeline.Tests.Data.{at}

unfoldable pub query_program : Unit {0}
unfolding get update filter sort_by insert_by ℕ_discrete String_discrete Datetime_discrete micros
    ordinal at_most hour_bucket add_row group_from group_sums select_granularity range_error selects
    by_bucket point query_buckets query_hour count_type query_success_rate by_volume confirmed_in
    standing standings query_leaderboard_from_db month_start period_end
query_program = tt

abbrev key : ℕ → String → Datetime → RollupKey
key merchant event_type bucket = record {
  merchant_id = merchant;
  bucket = bucket;
  event_type = event_type;
}

abbrev cell : ℕ → ℕ → RollupRow
cell count amount = record {
  count = count;
  amount_sum_cents = amount;
  amount_min_cents = 0;
  amount_max_cents = amount;
}

abbrev pub clock : ℕ → Datetime
clock h = record (at h 0 0) { microsecond = 0 }

abbrev table : List Row
table =
    (key 7 "PAYMENT_CONFIRMED" (clock 9), cell 3 300)
    ∷ (key 7 "PAYMENT_FAILED" (clock 9), cell 1 50)
    ∷ (key 8 "PAYMENT_CONFIRMED" (clock 9), cell 2 700)
    ∷ (key 7 "PAYMENT_CONFIRMED" (clock 8), cell 1 20)
    ∷ []

abbrev pub db : Database
db = record (empty_database (7 ∷ 8 ∷ [])) { rollup_hour = table; rollup_day = table }

-- one point for each hour, in order, with the types added up
hours :
    query_hour 7 (clock 0) (clock 23) db
    ≡ record { bucket = clock 8; volume_cents = 20; count = 1 }
      ∷ record { bucket = clock 9; volume_cents = 350; count = 4 }
      ∷ []
unfolding query_program
hours = refl

-- four confirmed of five
rate : query_success_rate 7 (clock 0) (clock 23) db ≡ some (4, 5)
unfolding query_program
rate = refl

abbrev may : Datetime
may = month_start 2026 5

best :
    query_leaderboard_from_db may (period_end 2026 5) 1 db
    ≡ record { merchant_id = 8; volume_cents = 700; transaction_count = 2 } ∷ []
unfolding query_program
best = refl

-- the row of the first of June is in the leaderboard of May
first_of_june :
    confirmed_in may (period_end 2026 5) (key 7 "PAYMENT_CONFIRMED" (month_start 2026 6), cell 1 1)
    ≡ true
unfolding query_program
first_of_june = refl
