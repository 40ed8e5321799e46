-- ===== src/Worker/Totals.antt =====
-- What a rollup cell should hold for a set of events, however they are ordered.
use mathlib.Core.List.{Perm, Permᴰ}
use mathlib.Core.Logic.{∥∥₁_elim}
use analytics_pipeline.Prelude.{
  Bool, true, not, List, [], ◌∷◌, ◌++◌, Option, none, filter, filter-not-perm, ite, ◌≡◌, refl, sym,
  ap, ◌∙◌, arith, if_pos, if_neg, if◌then◌else◌,
}
use analytics_pipeline.Records.{
  RawEvent, RollupKey, RollupKey_discrete, RollupRow, RollupGranularity,
}
use analytics_pipeline.Rollup.Buckets.{rollup_key}
use analytics_pipeline.Rollup.Summary.{
  summarise, combine, combine_assoc, combine_comm, summarise-cons, summarise-append,
}
use analytics_pipeline.Rollup.Aggregate.Laws.{amounts_at, amounts_at-append}

-- the summary of the amounts of the events that are counted under a key
unfoldable pub total : RollupGranularity → RollupKey → List RawEvent → Option RollupRow
total g k es = summarise (amounts_at g k es)

-- the part of one event
cell : RollupGranularity → RollupKey → RawEvent → Option RollupRow
cell g k e = ite (RollupKey_discrete (rollup_key g e) k) (summarise (e.amount_cents ∷ [])) none

filter-true : (xs : List RawEvent) → filter (λ e. true) xs ≡ xs
unfolding filter
filter-true [] = refl
filter-true (x ∷ xs) = ap (◌∷◌ x) (filter-true xs)

RollupRow_set : IsSet (Option RollupRow)
RollupRow_set = hlevel

module _ (g : RollupGranularity) (k : RollupKey) where
  total_nil : total g k [] ≡ none
  unfolding total amounts_at summarise
  total_nil = refl

  total-cons :
      (e : RawEvent) (es : List RawEvent) → total g k (e ∷ es) ≡ combine (cell g k e) (total g k es)
  unfolding total amounts_at cell
  total-cons e es = elim (RollupKey_discrete (rollup_key g e) k) [
    | yes p ↦ rw (if_pos _ p, if_pos _ p) (summarise-cons e.amount_cents (amounts_at g k es))
    | no p ↦ rw (if_neg _ p, if_neg _ p) (unfold combine in refl)
  ]

  pub total-append :
      (xs ys : List RawEvent) → total g k (xs ++ ys) ≡ combine (total g k xs) (total g k ys)
  unfolding total
  total-append xs ys =
      rw (amounts_at-append g k xs ys) (summarise-append (amounts_at g k xs) (amounts_at g k ys))

  weight : (RawEvent → Bool) → RawEvent → Option RollupRow
  weight p e = if p e then cell g k e else none

  total-filter-cons :
      (p : RawEvent → Bool) (e : RawEvent) (es : List RawEvent)
      → total g k (filter p (e ∷ es)) ≡ combine (weight p e) (total g k (filter p es))
  unfolding filter combine weight
  total-filter-cons p e es = ground (arith, total-cons e (filter p es))

  swap_front : (a b c : Option RollupRow) → combine a (combine b c) ≡ combine b (combine a c)
  swap_front a b c =
      sym (combine_assoc a b c) ∙ ap (λ d. combine d c) (combine_comm a b) ∙ combine_assoc b a c

  total-filter-permᴰ :
      (p : RawEvent → Bool) {xs ys : List RawEvent}
      → Permᴰ xs ys
      → total g k (filter p xs) ≡ total g k (filter p ys)
  total-filter-permᴰ p Permᴰ.nil = refl
  total-filter-permᴰ p (Permᴰ.cons {a} {b} {l₁} {l₂} e q) =
      cc (total-filter-cons p a l₁, total-filter-cons p b l₂, total-filter-permᴰ p q)
  total-filter-permᴰ p (Permᴰ.swap {a} {b} {a'} {b'} {l} e f) = cc (
    total-filter-cons p a (b ∷ l),
    total-filter-cons p b l,
    total-filter-cons p a' (b' ∷ l),
    total-filter-cons p b' l,
    swap_front (weight p a) (weight p b) (total g k (filter p l)),
  )
  total-filter-permᴰ p (Permᴰ.trans q r) = total-filter-permᴰ p q ∙ total-filter-permᴰ p r

  -- the order of the events does not matter
  pub total-filter-perm :
      (p : RawEvent → Bool) {xs ys : List RawEvent}
      → Perm xs ys
      → total g k (filter p xs) ≡ total g k (filter p ys)
  total-filter-perm p q = ∥∥₁_elim q (RollupRow_set _ _) (total-filter-permᴰ p)

  pub total-perm : {xs ys : List RawEvent} → Perm xs ys → total g k xs ≡ total g k ys
  total-perm {xs} {ys} q =
      let every = λ (e : RawEvent). true in
      rw (← filter-true xs, ← filter-true ys) (total-filter-perm every q)

  -- a test splits a total in two
  pub total-filter-not :
      (p : RawEvent → Bool) (xs : List RawEvent)
      → total g k xs ≡ combine (total g k (filter p xs)) (total g k (filter (λ x. not (p x)) xs))
  total-filter-not p xs = total-perm (filter-not-perm p xs) ∙ total-append _ _
