-- ===== src/Nightly/DaySum.antt =====
-- The hours of a day, added up: what the compaction's GROUP BY computes, and what the worker keeps.
use analytics_pipeline.Prelude.{
  List, [], ◌∷◌, Option, none, some, get, update, get-update, HasDistinctKeys,
  update-HasDistinctKeys, ite, ◌≡◌, refl, sym, ap, ◌∙◌, arith,
}
use analytics_pipeline.Records.{RollupKey, RollupKey_discrete, RollupRow}
use analytics_pipeline.Rollup.Summary.{combine, combine-none, combine_assoc, combine_comm}
use analytics_pipeline.Rollup.Table.{RollupTable}
use analytics_pipeline.Query.Group.{Row}
use analytics_pipeline.Nightly.Compaction.{day_key, grouped, group_into, overwrite_rows}

-- a row, if it belongs to the day's key
unfoldable pub of_day : RollupKey → RollupKey → RollupRow → Option RollupRow
of_day k j row = ite (RollupKey_discrete (day_key j) k) (some row) none

-- the rows of a day's key, merged
unfoldable pub day_sum : RollupKey → List Row → Option RollupRow
day_sum k [] = none
day_sum k ((j, row) ∷ rows) = combine (of_day k j row) (day_sum k rows)

grouped-combine :
    (row : RollupRow) (o : Option RollupRow) → some (grouped row o) ≡ combine o (some row)
unfolding grouped combine
grouped-combine row none = refl
grouped-combine row (some r) = refl

pub swap_last : (a b c : Option RollupRow) → combine (combine a b) c ≡ combine (combine a c) b
swap_last a b c =
    combine_assoc a b c ∙ ap (combine a) (combine_comm b c) ∙ sym (combine_assoc a c b)

get-group_into :
    (k : RollupKey) (groups : RollupTable) (rows : List Row)
    → get RollupKey_discrete k (group_into groups rows)
      ≡ combine (get RollupKey_discrete k groups) (day_sum k rows)
unfolding group_into day_sum of_day
get-group_into k groups [] = sym (combine-none (get RollupKey_discrete k groups))
get-group_into k groups ((j, row) ∷ rows) = ground (
  arith,
  get-group_into k (update RollupKey_discrete (day_key j) (grouped row) groups) rows,
  get-update RollupKey_discrete (day_key j) k (grouped row) groups,
  grouped-combine row (get RollupKey_discrete (day_key j) groups),
  combine-none (get RollupKey_discrete k groups),
  combine_assoc (get RollupKey_discrete k groups) (some row) (day_sum k rows),
  combine_assoc (get RollupKey_discrete k groups) none (day_sum k rows),
)

group_into-HasDistinctKeys :
    (groups : RollupTable) (rows : List Row)
    → HasDistinctKeys RollupKey_discrete groups
    → HasDistinctKeys RollupKey_discrete (group_into groups rows)
unfolding group_into
group_into-HasDistinctKeys groups [] h = h
group_into-HasDistinctKeys groups ((j, row) ∷ rows) h =
    group_into-HasDistinctKeys (update RollupKey_discrete (day_key j) (grouped row) groups) rows
      (update-HasDistinctKeys RollupKey_discrete (day_key j) (grouped row) groups h)

-- the new row if there is one, the old one otherwise
unfoldable pub instead : Option RollupRow → Option RollupRow → Option RollupRow
instead none old = old
instead (some new) old = some new

get-overwrite_rows :
    (k : RollupKey) (rows table : RollupTable)
    → HasDistinctKeys RollupKey_discrete rows
    → get RollupKey_discrete k (overwrite_rows rows table)
      ≡ instead (get RollupKey_discrete k rows) (get RollupKey_discrete k table)
unfolding overwrite_rows instead get
get-overwrite_rows k [] table h = refl
get-overwrite_rows k ((j, row) ∷ rows) table h = ground (
  arith,
  h.0,
  get-overwrite_rows k rows (update RollupKey_discrete j (λ _. row) table) h.1,
  get-update RollupKey_discrete j k (λ _. row) table,
)

pub overwrite_rows-HasDistinctKeys :
    (rows table : RollupTable)
    → HasDistinctKeys RollupKey_discrete table
    → HasDistinctKeys RollupKey_discrete (overwrite_rows rows table)
unfolding overwrite_rows
overwrite_rows-HasDistinctKeys [] table h = h
overwrite_rows-HasDistinctKeys ((j, row) ∷ rows) table h =
    overwrite_rows-HasDistinctKeys rows (update RollupKey_discrete j (λ _. row) table)
      (update-HasDistinctKeys RollupKey_discrete j (λ _. row) table h)

-- A row of the day becomes its hours, added up, if it has any, and stays as it is otherwise.
pub get-compacted :
    (k : RollupKey) (hours : List Row) (table : RollupTable)
    → get RollupKey_discrete k (overwrite_rows (group_into [] hours) table)
      ≡ instead (day_sum k hours) (get RollupKey_discrete k table)
unfolding get
get-compacted k hours table =
    get-overwrite_rows k (group_into [] hours) table (group_into-HasDistinctKeys [] hours tt)
    ∙ ap (λ o. instead o (get RollupKey_discrete k table))
        (get-group_into k [] hours ∙ (unfold combine in refl))
