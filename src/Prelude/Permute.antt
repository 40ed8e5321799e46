-- ===== src/Prelude/Permute.antt =====
-- What does not depend on the order of a list.
use mathlib.Core.Bool.{Bool, true, false, not}
use mathlib.Core.HLevel.{×_prop}
use mathlib.Core.List.{List, [], ◌∷◌, ◌++◌, Perm, Permᴰ, perm_middle}
use mathlib.Core.List.Perm
use mathlib.Core.Logic.{∥∥₁_elim, inl, inr}
use mathlib.Core.Path.{◌≡◌, refl, ◌∙◌}
use native.Mathlib.Omega.{arith}
use analytics_pipeline.Prelude.Tests.{Bool-cases}
use analytics_pipeline.Prelude.Collect.{contains, contains-append, IsDistinct, filter}
use analytics_pipeline.Prelude.Sorting.{insert_by, sort_by}

pub Bool_set : IsSet Bool
Bool_set = hlevel

module _ {ℓ} {A : Type ℓ} where
  insert_by-perm : (le : A → A → Bool) (x : A) (xs : List A) → Perm (insert_by le x xs) (x ∷ xs)
  unfolding insert_by
  insert_by-perm le x [] = Perm.refl (x ∷ [])
  insert_by-perm le x (y ∷ ys) = elim (Bool-cases (le x y)) [
    | inl e ↦ rw e (Perm.refl (x ∷ y ∷ ys))
    | inr e ↦ rw e (Perm.trans (Perm.cons y (insert_by-perm le x ys)) (Perm.swap x y ys))
  ]

  -- a sort loses and invents nothing
  pub sort_by-perm : (le : A → A → Bool) (xs : List A) → Perm (sort_by le xs) xs
  unfolding sort_by
  sort_by-perm le [] = Perm.refl []
  sort_by-perm le (x ∷ xs) =
      Perm.trans (insert_by-perm le x (sort_by le xs)) (Perm.cons x (sort_by-perm le xs))

  -- what passes a test and what fails it make up the list
  pub filter-not-perm :
      (p : A → Bool) (xs : List A) → Perm xs (filter p xs ++ filter (λ x. not (p x)) xs)
  unfolding filter
  filter-not-perm p [] = Perm.refl []
  filter-not-perm p (x ∷ xs) = elim (Bool-cases (p x)) [
    | inl e ↦ rw e (Perm.cons x (filter-not-perm p xs))
    | inr e ↦
        rw e (
          Perm.trans (Perm.cons x (filter-not-perm p xs)) (Perm.symm (perm_middle (filter p xs) _)))
  ]

module _ {ℓ} {A : Type ℓ} (dec : Discrete A) where
  contains-permᴰ : (x : A) {xs ys : List A} → Permᴰ xs ys → contains dec x xs ≡ contains dec x ys
  unfolding contains
  contains-permᴰ x Permᴰ.nil = refl
  contains-permᴰ x (Permᴰ.cons e p) = ground (arith, contains-permᴰ x p)
  contains-permᴰ x (Permᴰ.swap e f) = ground arith
  contains-permᴰ x (Permᴰ.trans p q) = contains-permᴰ x p ∙ contains-permᴰ x q

  pub contains-perm : (x : A) {xs ys : List A} → Perm xs ys → contains dec x xs ≡ contains dec x ys
  contains-perm x p = ∥∥₁_elim p (Bool_set _ _) (contains-permᴰ x)

  IsDistinct-prop : (xs : List A) → IsProp (IsDistinct dec xs)
  IsDistinct-prop [] = hlevel
  IsDistinct-prop (x ∷ xs) = ×_prop (Bool_set _ _) (IsDistinct-prop xs)

  IsDistinct-permᴰ : {xs ys : List A} → Permᴰ xs ys → IsDistinct dec xs → IsDistinct dec ys
  unfolding contains
  IsDistinct-permᴰ Permᴰ.nil h = h
  IsDistinct-permᴰ (Permᴰ.cons {a} e p) h =
      (ground (arith, contains-permᴰ a p, h.0), IsDistinct-permᴰ p h.1)
  IsDistinct-permᴰ (Permᴰ.swap e f) h = ground arith
  IsDistinct-permᴰ (Permᴰ.trans p q) h = IsDistinct-permᴰ q (IsDistinct-permᴰ p h)

  pub IsDistinct-perm : {xs ys : List A} → Perm xs ys → IsDistinct dec xs → IsDistinct dec ys
  IsDistinct-perm {ys = ys} p h = ∥∥₁_elim p (IsDistinct-prop ys) (λ q. IsDistinct-permᴰ q h)

  -- of two lists that have no repetition together, neither has one, and they are disjoint
  pub IsDistinct-append_inv :
      (xs ys : List A)
      → IsDistinct dec (xs ++ ys)
      → IsDistinct dec xs
        × IsDistinct dec ys
        × ((x : A) → contains dec x xs ≡ true → contains dec x ys ≡ false)
  unfolding contains
  IsDistinct-append_inv [] ys h = (tt, h, λ x m. ground arith)
  IsDistinct-append_inv (x ∷ xs) ys h =
      let (dx, dy, apart) = IsDistinct-append_inv xs ys h.1 in
      (
        (ground (arith, contains-append dec x xs ys, h.0), dx),
        dy,
        λ z m. ground (arith, contains-append dec x xs ys, h.0, apart z),
      )
