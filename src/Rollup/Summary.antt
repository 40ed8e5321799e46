-- ===== src/Rollup/Summary.antt =====
-- What a rollup cell should hold, stated with no accumulator: the number, the sum and the extremes
-- of a list of amounts. A cell with no amount is absent.
use analytics_pipeline.Prelude.{
  ℕ, ◌+◌, min, max, List, [], ◌∷◌, ◌++◌, Option, none, some, length, sum, ◌≡◌, refl, sym, arith, ap,
  ◌∙◌,
}
use analytics_pipeline.Records.{RollupRow}

abbrev pub minimum : ℕ → List ℕ → ℕ
minimum x [] = x
minimum x (y ∷ ys) = min x (minimum y ys)

abbrev pub maximum : ℕ → List ℕ → ℕ
maximum x [] = x
maximum x (y ∷ ys) = max x (maximum y ys)

unfoldable pub summarise : List ℕ → Option RollupRow
summarise [] = none
summarise (x ∷ xs) = some (record {
  count = length (x ∷ xs);
  amount_sum_cents = sum (x ∷ xs);
  amount_min_cents = minimum x xs;
  amount_max_cents = maximum x xs;
})

-- Two rows for the same key become one.
unfoldable pub merge : RollupRow → RollupRow → RollupRow
merge a b = record {
  count = a.count + b.count;
  amount_sum_cents = a.amount_sum_cents + b.amount_sum_cents;
  amount_min_cents = min a.amount_min_cents b.amount_min_cents;
  amount_max_cents = max a.amount_max_cents b.amount_max_cents;
}

unfoldable pub combine : Option RollupRow → Option RollupRow → Option RollupRow
unfolding merge
combine none b = b
combine (some a) none = some a
combine (some a) (some b) = some (merge a b)

pub combine-none : (a : Option RollupRow) → combine a none ≡ a
unfolding combine
combine-none none = refl
combine-none (some a) = refl

pub combine_assoc : (a b c : Option RollupRow) → combine (combine a b) c ≡ combine a (combine b c)
unfolding combine
combine_assoc a b c = ground arith

pub combine_comm : (a b : Option RollupRow) → combine a b ≡ combine b a
unfolding combine
combine_comm a b = ground arith

pub summarise-cons :
    (x : ℕ) (xs : List ℕ) → summarise (x ∷ xs) ≡ combine (summarise (x ∷ [])) (summarise xs)
unfolding summarise combine
summarise-cons x [] = refl
summarise-cons x (y ∷ ys) = ground arith

-- The summary of two lists is their summaries, merged.
pub summarise-append :
    (xs ys : List ℕ) → summarise (xs ++ ys) ≡ combine (summarise xs) (summarise ys)
summarise-append [] ys = unfold summarise combine in refl
summarise-append (x ∷ xs) ys =
    summarise-cons x (xs ++ ys)
    ∙ (rw (summarise-append xs ys) (sym (combine_assoc _ _ _)))
    ∙ ap (λ r. combine r (summarise ys)) (sym (summarise-cons x xs))
