-- ===== src/Prelude/Sorting.antt =====
-- ORDER BY: a stable sort by a Boolean order. Rows that the order does not tell apart keep the
-- order of the table, which stands for the order in which the database happens to read them.
use Prim.Native.Nat.{ℕ, zero, suc}
use mathlib.Core.Bool.{Bool, true, false}
use mathlib.Core.List.{List, [], ◌∷◌, ◌++◌}
use mathlib.Core.Path.{◌≡◌}
use analytics_pipeline.Prelude.Tests.{if◌then◌else◌, Bool-cases}
use analytics_pipeline.Prelude.Lists.{take}
use analytics_pipeline.Prelude.Collect.{All, All-append_inv}
use mathlib.Core.Logic.{inl, inr}

module _ {ℓ} {A : Type ℓ} (le : A → A → Bool) where
  unfoldable pub insert_by : A → List A → List A
  insert_by x [] = x ∷ []
  insert_by x (y ∷ ys) = if le x y then x ∷ y ∷ ys else y ∷ insert_by x ys

  unfoldable pub sort_by : List A → List A
  unfolding insert_by
  sort_by [] = []
  sort_by (x ∷ xs) = insert_by x (sort_by xs)

  -- every element is below all that follow it
  abbrev pub IsSorted : List A → Type ℓ
  IsSorted [] = Unit
  IsSorted (x ∷ xs) = All (λ y. le x y ≡ true) xs × IsSorted xs

module _ {ℓ κ} {A : Type ℓ} (P : A → Type κ) (le : A → A → Bool) where
  insert_by-All : (x : A) (xs : List A) → P x → All P xs → All P (insert_by le x xs)
  unfolding insert_by
  insert_by-All x [] px h = (px, tt)
  insert_by-All x (y ∷ ys) px h = elim (Bool-cases (le x y)) [
    | inl e ↦ rw e (px, h)
    | inr e ↦ rw e (h.0, insert_by-All x ys px h.1)
  ]

  pub sort_by-All : (xs : List A) → All P xs → All P (sort_by le xs)
  unfolding sort_by
  sort_by-All [] h = tt
  sort_by-All (x ∷ xs) h = insert_by-All x (sort_by le xs) h.0 (sort_by-All xs h.1)

  pub take-All : (n : ℕ) (xs : List A) → All P xs → All P (take n xs)
  take-All zero xs h = tt
  take-All (suc n) [] h = tt
  take-All (suc n) (x ∷ xs) h = (h.0, take-All n xs h.1)

module _ {ℓ} {A : Type ℓ} (le : A → A → Bool) (total : (a b : A) → le a b ≡ false → le b a ≡ true)
    (trans : (a b c : A) → le a b ≡ true → le b c ≡ true → le a c ≡ true) where
  All-le :
      (x y : A) (ys : List A)
      → le x y ≡ true
      → All (λ z. le y z ≡ true) ys
      → All (λ z. le x z ≡ true) ys
  All-le x y [] e h = tt
  All-le x y (z ∷ zs) e h = (trans x y z e h.0, All-le x y zs e h.1)

  insert_by-IsSorted : (x : A) (xs : List A) → IsSorted le xs → IsSorted le (insert_by le x xs)
  unfolding insert_by
  insert_by-IsSorted x [] h = (tt, tt)
  insert_by-IsSorted x (y ∷ ys) h = elim (Bool-cases (le x y)) [
    | inl e ↦ rw e ((e, All-le x y ys e h.0), h)
    | inr e ↦
        rw e (
          insert_by-All (λ z. le y z ≡ true) le x ys (total x y e) h.0,
          insert_by-IsSorted x ys h.1,
        )
  ]

  pub sort_by-IsSorted : (xs : List A) → IsSorted le (sort_by le xs)
  unfolding sort_by
  sort_by-IsSorted [] = tt
  sort_by-IsSorted (x ∷ xs) = insert_by-IsSorted x (sort_by le xs) (sort_by-IsSorted xs)

module _ {ℓ} {A : Type ℓ} (le : A → A → Bool) where
  -- a front part of a sorted list is sorted, and below all of the rest
  pub IsSorted-append_inv :
      (xs ys : List A)
      → IsSorted le (xs ++ ys)
      → IsSorted le xs × All (λ a. All (λ b. le a b ≡ true) ys) xs
  IsSorted-append_inv [] ys h = (tt, tt)
  IsSorted-append_inv (x ∷ xs) ys h =
      let rest = IsSorted-append_inv xs ys h.1 in
      let split = All-append_inv (λ b. le x b ≡ true) xs ys h.0 in
      ((split.0, rest.0), (split.1, rest.1))
