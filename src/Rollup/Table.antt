-- ===== src/Rollup/Table.antt =====
-- The upserts of app/repositories/rollup_repository.py, on one rollup table.
pub mod Laws
use analytics_pipeline.Prelude.{
  ℕ, ◌+◌, min, max, Bool, true, false, List, [], ◌∷◌, Option, none, some, Dict, get, update, ite,
  ◌&&◌, if◌then◌else◌,
}
use analytics_pipeline.Result.{Result, ok, err, cardinality_violation}
use analytics_pipeline.Moment.{Datetime}
use analytics_pipeline.Records.{RollupKey, RollupKey_discrete, RollupRow}
use analytics_pipeline.Rollup.Accum.{row_of}
use analytics_pipeline.Rollup.Aggregate.{AggMap}

abbrev pub RollupTable : Type 0
RollupTable = Dict RollupKey RollupRow

-- DO UPDATE SET count = count + EXCLUDED.count, ..., LEAST(...), GREATEST(...)
unfoldable pub on_conflict : RollupRow → Option RollupRow → RollupRow
on_conflict excluded none = excluded
on_conflict excluded (some row) = record {
  count = row.count + excluded.count;
  amount_sum_cents = row.amount_sum_cents + excluded.amount_sum_cents;
  amount_min_cents = min row.amount_min_cents excluded.amount_min_cents;
  amount_max_cents = max row.amount_max_cents excluded.amount_max_cents;
}

-- `_upsert_rollup`: one row
unfoldable pub upsert_rollup : RollupKey → ℕ → ℕ → RollupTable → RollupTable
upsert_rollup key count_delta amount_cents = update RollupKey_discrete key (
    on_conflict (record {
      count = count_delta;
      amount_sum_cents = amount_cents;
      amount_min_cents = amount_cents;
      amount_max_cents = amount_cents;
    }))

-- the rows of one INSERT, in order
unfoldable pub upsert_rows : AggMap → RollupTable → RollupTable
upsert_rows [] t = t
upsert_rows ((key, acc) ∷ agg) t =
    upsert_rows agg (update RollupKey_discrete key (on_conflict (row_of acc)) t)

is_none : Option RollupRow → Bool
is_none none = true
is_none (some r) = false

unfoldable pub has_distinct_keys : AggMap → Bool
has_distinct_keys [] = true
has_distinct_keys ((key, acc) ∷ agg) = elim (get RollupKey_discrete key agg) [
  | none ↦ has_distinct_keys agg
  | some _ ↦ false
]

-- `_batch_upsert`. PostgreSQL refuses a statement whose rows name one key twice: "ON CONFLICT DO
-- UPDATE command cannot affect row a second time".
unfoldable pub batch_upsert : AggMap → RollupTable → Result RollupTable
batch_upsert [] t = ok t
batch_upsert (d ∷ agg) t =
    if has_distinct_keys (d ∷ agg) then ok (upsert_rows (d ∷ agg) t) else err cardinality_violation
