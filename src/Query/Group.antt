-- ===== src/Query/Group.antt =====
-- SELECT key, SUM(count), SUM(amount_sum_cents) ... GROUP BY key, on rows of a rollup table.
use analytics_pipeline.Prelude.{
  ℕ, ◌+◌, List, [], ◌∷◌, Option, none, some, Dict, get, update, get-update, HasDistinctKeys,
  update-HasDistinctKeys, ite, ◌≡◌, refl, arith, if_pos, if_neg, ◌∙◌,
}
use analytics_pipeline.Records.{RollupKey, RollupRow}

pub record Sums : Type 0 where
  pub count : ℕ
  pub volume_cents : ℕ

abbrev pub Row : Type 0
Row = RollupKey × RollupRow

-- one more row of a group
unfoldable pub add_row : RollupRow → Option Sums → Sums
add_row row none = record { count = row.count; volume_cents = row.amount_sum_cents }
add_row row (some s) = record {
  count = s.count + row.count;
  volume_cents = s.volume_cents + row.amount_sum_cents;
}

-- the two sums over the rows
abbrev pub count_of : List Row → ℕ
count_of [] = 0
count_of ((k, row) ∷ rows) = row.count + count_of rows

abbrev pub volume_of : List Row → ℕ
volume_of [] = 0
volume_of ((k, row) ∷ rows) = row.amount_sum_cents + volume_of rows

-- the sums of a group, if it has any row
unfoldable pub sums_of : List Row → Option Sums
sums_of [] = none
sums_of (row ∷ rows) =
    some (record { count = count_of (row ∷ rows); volume_cents = volume_of (row ∷ rows) })

abbrev pub plus : Option Sums → Option Sums → Option Sums
plus none b = b
plus (some a) none = some a
plus (some a) (some b) =
    some (record { count = a.count + b.count; volume_cents = a.volume_cents + b.volume_cents })

plus-none : (a : Option Sums) → a ≡ plus a none
plus-none none = refl
plus-none (some a) = refl

-- a row before the others, with what its group held before it
plus-add_row :
    (row : RollupRow) (k : RollupKey) (rows : List Row) (o : Option Sums)
    → plus (some (add_row row o)) (sums_of rows) ≡ plus o (sums_of ((k, row) ∷ rows))
unfolding add_row sums_of
plus-add_row row k [] none = ground arith
plus-add_row row k [] (some s) = ground arith
plus-add_row row k (r ∷ rows) none = ground arith
plus-add_row row k (r ∷ rows) (some s) = ground arith

module _ {K : Type 0} (dec : Discrete K) (key : RollupKey → K) where
  unfoldable pub group_from : Dict K Sums → List Row → Dict K Sums
  group_from groups [] = groups
  group_from groups ((k, row) ∷ rows) = group_from (update dec (key k) (add_row row) groups) rows

  unfoldable pub group_sums : List Row → Dict K Sums
  group_sums rows = group_from [] rows

  -- the rows of one group
  unfoldable pub rows_at : K → List Row → List Row
  rows_at g [] = []
  rows_at g ((k, row) ∷ rows) = ite (dec (key k) g) ((k, row) ∷ rows_at g rows) (rows_at g rows)

  get-group_from :
      (g : K) (rows : List Row) (groups : Dict K Sums)
      → get dec g (group_from groups rows) ≡ plus (get dec g groups) (sums_of (rows_at g rows))
  unfolding group_from rows_at sums_of
  get-group_from g [] groups = plus-none (get dec g groups)
  get-group_from g ((k, row) ∷ rows) groups =
      let rest = get-group_from g rows (update dec (key k) (add_row row) groups) in
      let written = get-update dec (key k) g (add_row row) groups in
      elim (dec (key k) g) [
        | yes p ↦
            rest
            ∙ (rw (written, if_pos _ p, if_pos _ p, p)
                (plus-add_row row k (rows_at g rows) (get dec g groups)))
        | no p ↦ rest ∙ (rw (written, if_neg _ p, if_neg _ p) refl)
      ]

  -- Each group holds the sums over its rows, and a key without rows has no group.
  pub get-group_sums :
      (g : K) (rows : List Row) → get dec g (group_sums rows) ≡ sums_of (rows_at g rows)
  unfolding group_sums get
  get-group_sums g rows = get-group_from g rows []

  group_from-HasDistinctKeys :
      (rows : List Row) (groups : Dict K Sums)
      → HasDistinctKeys dec groups
      → HasDistinctKeys dec (group_from groups rows)
  unfolding group_from
  group_from-HasDistinctKeys [] groups h = h
  group_from-HasDistinctKeys ((k, row) ∷ rows) groups h =
      group_from-HasDistinctKeys rows _ (update-HasDistinctKeys dec (key k) (add_row row) groups h)

  pub group_sums-HasDistinctKeys : (rows : List Row) → HasDistinctKeys dec (group_sums rows)
  unfolding group_sums
  group_sums-HasDistinctKeys rows = group_from-HasDistinctKeys rows [] tt
