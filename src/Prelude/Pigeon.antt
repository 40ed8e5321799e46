-- ===== src/Prelude/Pigeon.antt =====
-- Distinct numbers below a bound are no more than the bound.
use Prim.Native.Nat.{ℕ, zero, suc, ◌≤◌, ◌<◌}
use native.Mathlib.Decide.{ℕ_discrete}
use mathlib.Core.Bool.{false}
use mathlib.Core.List.{List, [], ◌∷◌}
use mathlib.Core.Logic.{inl, inr}
use mathlib.Core.Path.{◌≡◌, refl, subst}
use native.Mathlib.Omega.{arith}
use analytics_pipeline.Prelude.Lists.{length}
use analytics_pipeline.Prelude.Tests.{◌==◌, ==_iff, if◌then◌else◌, Bool-cases}
use analytics_pipeline.Prelude.Collect.{All, contains, IsDistinct}

-- without the first occurrence of n
remove : ℕ → List ℕ → List ℕ
remove n [] = []
remove n (x ∷ xs) = if x == n then xs else x ∷ remove n xs

length-remove : (n : ℕ) (xs : List ℕ) → length xs ≤ suc (length (remove n xs))
unfolding remove
length-remove n [] = omega arith
length-remove n (x ∷ xs) = ground (arith, length-remove n xs)

contains-remove :
    (y n : ℕ) (xs : List ℕ)
    → contains ℕ_discrete y xs ≡ false
    → contains ℕ_discrete y (remove n xs) ≡ false
unfolding remove contains
contains-remove y n [] h = refl
contains-remove y n (x ∷ xs) h = ground (arith, h, contains-remove y n xs)

remove-IsDistinct :
    (n : ℕ) (xs : List ℕ) → IsDistinct ℕ_discrete xs → IsDistinct ℕ_discrete (remove n xs)
unfolding remove
remove-IsDistinct n [] h = tt
remove-IsDistinct n (x ∷ xs) h =
    ground (arith, h, contains-remove x n xs, remove-IsDistinct n xs h.1)

-- numbers up to n without n are below n
below :
    (n : ℕ) (xs : List ℕ)
    → contains ℕ_discrete n xs ≡ false
    → All (λ x. x < suc n) xs
    → All (λ x. x < n) xs
unfolding contains
below n [] d h = tt
below n (x ∷ xs) d h = (ground (arith, d, h.0), below n xs (ground (arith, d)) h.1)

-- of distinct numbers up to n the others are below n
remove-below :
    (n : ℕ) (xs : List ℕ)
    → IsDistinct ℕ_discrete xs
    → All (λ x. x < suc n) xs
    → All (λ x. x < n) (remove n xs)
unfolding remove
remove-below n [] d h = tt
remove-below n (x ∷ xs) d h = elim (Bool-cases (x == n)) [
  | inl e ↦
      rw e (below n xs (subst (λ z. contains ℕ_discrete z xs ≡ false) ((==_iff x n).0 e) d.0) h.1)
  | inr e ↦ rw e (ground (arith, e, h.0), remove-below n xs d.1 h.1)
]

pub length-IsDistinct-below :
    (n : ℕ) (xs : List ℕ) → IsDistinct ℕ_discrete xs → All (λ x. x < n) xs → length xs ≤ n
length-IsDistinct-below zero [] d h = omega arith
length-IsDistinct-below zero (x ∷ xs) d h = absurd (omega (arith, h.0))
length-IsDistinct-below (suc n) xs d h = omega (
  arith,
  length-remove n xs,
  length-IsDistinct-below n (remove n xs) (remove-IsDistinct n xs d) (remove-below n xs d h),
)
