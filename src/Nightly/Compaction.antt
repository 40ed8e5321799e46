-- ===== src/Nightly/Compaction.antt =====
-- `compact_day_rollup`, `snapshot_leaderboard` and `run_compaction` of
-- scripts/nightly_compaction.py. The sessions run in UTC.
use analytics_pipeline.Prelude.{
  ℕ, ◌+◌, ◌-◌, String, Bool, List, [], ◌∷◌, Option, none, some, update, filter, sort_by, take, ltb,
  leb, if◌then◌else◌, ◌&&◌, min, max, ite, ℕ_discrete, String_discrete,
}
use analytics_pipeline.Moment.{Datetime, Datetime_discrete, at_most, micros}
use analytics_pipeline.Records.{RollupKey, RollupKey_discrete, RollupRow}
use analytics_pipeline.Rollup.Buckets.{day_bucket}
use analytics_pipeline.Rollup.Table.{RollupTable}
use analytics_pipeline.Database.{Database}
use analytics_pipeline.Query.Group.{Row}

-- datetime(target_date.year, target_date.month, target_date.day)
unfoldable pub midnight : ℕ → ℕ → ℕ → Datetime
midnight year month day = record {
  year = year;
  month = month;
  day = day;
  hour = 0;
  minute = 0;
  second = 0;
  microsecond = 0;
}

-- WHERE bucket >= $1 AND bucket < $2, where $2 is a day after $1
unfoldable pub in_day : Datetime → Datetime → Bool
in_day start bucket = at_most start bucket && ltb (micros bucket) (micros start + 86400000000)

-- merchant_id, date_trunc('day', bucket), event_type
unfoldable pub day_key : RollupKey → RollupKey
day_key k = record k { bucket = day_bucket k.bucket }

-- SUM(count), SUM(amount_sum_cents), MIN(amount_min_cents), MAX(amount_max_cents)
unfoldable pub grouped : RollupRow → Option RollupRow → RollupRow
grouped row none = row
grouped row (some group) = record {
  count = group.count + row.count;
  amount_sum_cents = group.amount_sum_cents + row.amount_sum_cents;
  amount_min_cents = min group.amount_min_cents row.amount_min_cents;
  amount_max_cents = max group.amount_max_cents row.amount_max_cents;
}

-- GROUP BY
unfoldable pub group_into : RollupTable → List Row → RollupTable
group_into groups [] = groups
group_into groups ((k, row) ∷ rows) =
    group_into (update RollupKey_discrete (day_key k) (grouped row) groups) rows

-- ON CONFLICT DO UPDATE SET count = EXCLUDED.count, ...
unfoldable pub overwrite_rows : RollupTable → RollupTable → RollupTable
overwrite_rows [] table = table
overwrite_rows ((k, row) ∷ rows) table =
    overwrite_rows rows (update RollupKey_discrete k (λ _. row) table)

-- the INSERT of `compact_day_rollup`
unfoldable pub compact_day : Datetime → Database → Database
compact_day start db = record db {
  rollup_day =
      overwrite_rows (group_into [] (filter (λ r. in_day start r.0.bucket) db.rollup_hour))
        db.rollup_day;
}

-- a row of the discrepancy report
pub record Discrepancy : Type 0 where
  pub merchant_id : ℕ
  pub event_type : String
  pub day_count : ℕ
  pub hour_count : ℕ

-- SUM(count) of the hours of a merchant and an event type, and 0 if there is none
unfoldable pub hour_count_of : Datetime → ℕ → String → List Row → ℕ
hour_count_of start merchant event_type [] = 0
hour_count_of start merchant event_type ((k, row) ∷ rows) =
    ite (ℕ_discrete k.merchant_id merchant)
      (ite (String_discrete k.event_type event_type)
        (if in_day start k.bucket then row.count else 0) 0)
      0
    + hour_count_of start merchant event_type rows

-- the absolute difference
unfoldable pub delta : Discrepancy → ℕ
delta d = (d.day_count - d.hour_count) + (d.hour_count - d.day_count)

-- the rows of the day, each beside its hours, whose counts differ
unfoldable pub differing : Datetime → RollupTable → List Row → List Discrepancy
differing start hours [] = []
differing start hours ((k, row) ∷ rows) =
    let rest = differing start hours rows in
    let d : Discrepancy = record {
      merchant_id = k.merchant_id;
      event_type = k.event_type;
      day_count = row.count;
      hour_count = hour_count_of start k.merchant_id k.event_type hours;
    } in
    ite (Datetime_discrete k.bucket start) (if ltb 0 (delta d) then d ∷ rest else rest) rest

-- ORDER BY delta DESC
unfoldable pub by_delta : Discrepancy → Discrepancy → Bool
by_delta a b = leb (delta b) (delta a)

unfoldable pub discrepancies : Datetime → Database → List Discrepancy
discrepancies start db = take 10 (sort_by by_delta (differing start db.rollup_hour db.rollup_day))

-- `compact_day_rollup`: the tables, and the report on them
unfoldable pub compact_day_rollup : Datetime → Database → Database × List Discrepancy
compact_day_rollup start db = let after = compact_day start db in (after, discrepancies start after)
