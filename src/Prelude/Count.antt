-- ===== src/Prelude/Count.antt =====
-- How many elements pass a test, and what holds of all elements, however they are ordered.
use Prim.Native.Nat.{ℕ, ◌+◌, ◌≤◌}
use mathlib.Core.Bool.{Bool, true, false}
use mathlib.Core.HLevel.{×_prop}
use mathlib.Core.List.{List, [], ◌∷◌, ◌++◌, Perm, Permᴰ}
use mathlib.Core.Logic.{∥∥₁_elim}
use mathlib.Core.Path.{◌≡◌, refl, ◌∙◌}
use native.Mathlib.Omega.{arith}
use analytics_pipeline.Prelude.Lists.{length}
use analytics_pipeline.Prelude.Tests.{if◌then◌else◌}
use analytics_pipeline.Prelude.Collect.{All}
use analytics_pipeline.Prelude.Permute.{Bool_set}

pub ℕ_set : IsSet ℕ
ℕ_set = hlevel

module _ {ℓ} {A : Type ℓ} (p : A → Bool) where
  abbrev pub number_of : List A → ℕ
  number_of [] = 0
  number_of (x ∷ xs) = (if p x then 1 else 0) + number_of xs

  pub number_of-append : (xs ys : List A) → number_of (xs ++ ys) ≡ number_of xs + number_of ys
  number_of-append [] ys = omega arith
  number_of-append (x ∷ xs) ys = ground (arith, number_of-append xs ys)

  pub number_of-le-length : (xs : List A) → number_of xs ≤ length xs
  number_of-le-length [] = omega arith
  number_of-le-length (x ∷ xs) = ground (arith, number_of-le-length xs)

  pub number_of-All : (xs : List A) → All (λ x. p x ≡ true) xs → number_of xs ≡ length xs
  number_of-All [] h = refl
  number_of-All (x ∷ xs) h = ground (arith, h.0, number_of-All xs h.1)

  pub number_of_none : (xs : List A) → All (λ x. p x ≡ false) xs → number_of xs ≡ 0
  number_of_none [] h = refl
  number_of_none (x ∷ xs) h = ground (arith, h.0, number_of_none xs h.1)

  -- if none passes, each fails
  pub number_of_none_inv : (xs : List A) → number_of xs ≡ 0 → All (λ x. p x ≡ false) xs
  number_of_none_inv [] h = tt
  number_of_none_inv (x ∷ xs) h = (ground (arith, h), number_of_none_inv xs (ground (arith, h)))

  number_of-permᴰ : {xs ys : List A} → Permᴰ xs ys → number_of xs ≡ number_of ys
  number_of-permᴰ Permᴰ.nil = refl
  number_of-permᴰ (Permᴰ.cons e q) = ground (arith, number_of-permᴰ q)
  number_of-permᴰ (Permᴰ.swap e f) = ground arith
  number_of-permᴰ (Permᴰ.trans q r) = number_of-permᴰ q ∙ number_of-permᴰ r

  pub number_of-perm : {xs ys : List A} → Perm xs ys → number_of xs ≡ number_of ys
  number_of-perm q = ∥∥₁_elim q (ℕ_set _ _) number_of-permᴰ

  passed-prop : (xs : List A) → IsProp (All (λ x. p x ≡ true) xs)
  passed-prop [] = hlevel
  passed-prop (x ∷ xs) = ×_prop (Bool_set _ _) (passed-prop xs)

  passed-permᴰ :
      {xs ys : List A} → Permᴰ xs ys → All (λ x. p x ≡ true) xs → All (λ x. p x ≡ true) ys
  passed-permᴰ Permᴰ.nil h = h
  passed-permᴰ (Permᴰ.cons e q) h = (ground (arith, h.0), passed-permᴰ q h.1)
  passed-permᴰ (Permᴰ.swap e f) h = (ground (arith, h.1), (ground (arith, h.0), h.1.1))
  passed-permᴰ (Permᴰ.trans q r) h = passed-permᴰ r (passed-permᴰ q h)

  -- what all elements pass, all elements of a permutation pass
  pub All-perm : {xs ys : List A} → Perm xs ys → All (λ x. p x ≡ true) xs → All (λ x. p x ≡ true) ys
  All-perm {ys = ys} q h = ∥∥₁_elim q (passed-prop ys) (λ r. passed-permᴰ r h)
