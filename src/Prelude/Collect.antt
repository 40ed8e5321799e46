-- ===== src/Prelude/Collect.antt =====
-- Membership, selection and sums over lists, by Boolean tests and decisions that run.
use Prim.Native.Nat.{ℕ, ◌+◌, ◌≤◌}
use mathlib.Core.Bool.{Bool, true, false}
use mathlib.Core.List.{List, [], ◌∷◌, ◌++◌, map}
use mathlib.Core.Logic.{ite, if_pos, inl, inr}
use mathlib.Core.Path.{◌≡◌, refl}
use native.Mathlib.Omega.{arith}
use analytics_pipeline.Prelude.Tests.{if◌then◌else◌, Bool-cases}
use analytics_pipeline.Prelude.Lists.{length}

module _ {ℓ} {A : Type ℓ} (dec : Discrete A) where
  -- x in xs
  unfoldable pub contains : A → List A → Bool
  contains x [] = false
  contains x (y ∷ ys) = ite (dec y x) true (contains x ys)

  -- no element stands twice
  abbrev pub IsDistinct : List A → Type ℓ
  IsDistinct [] = Unit
  IsDistinct (x ∷ xs) = (contains x xs ≡ false) × IsDistinct xs

  pub contains-append :
      (x : A) (xs ys : List A)
      → contains x (xs ++ ys) ≡ (if contains x xs then true else contains x ys)
  unfolding contains
  contains-append x [] ys = refl
  contains-append x (y ∷ xs) ys = ground (arith, contains-append x xs ys)

  -- two lists without repetitions and without a common element have none together
  pub IsDistinct-append :
      (xs ys : List A)
      → IsDistinct xs
      → IsDistinct ys
      → ((x : A) → contains x xs ≡ true → contains x ys ≡ false)
      → IsDistinct (xs ++ ys)
  unfolding contains
  IsDistinct-append [] ys hx hy apart = hy
  IsDistinct-append (x ∷ xs) ys hx hy apart = (
    ground (arith, contains-append x xs ys, apart x),
    IsDistinct-append xs ys hx.1 hy (λ z h. ground (arith, apart z)),
  )

module _ {ℓ} {A : Type ℓ} (dec : Discrete A) where
  pub contains_self : (x : A) (xs : List A) → contains dec x (x ∷ xs) ≡ true
  unfolding contains
  contains_self x xs = if_pos (dec x x) refl true (contains dec x xs)

module _ {ℓ} {A : Type ℓ} where
  -- [x for x in xs if p x]
  unfoldable pub filter : (A → Bool) → List A → List A
  filter p [] = []
  filter p (x ∷ xs) = let rest = filter p xs in if p x then x ∷ rest else rest

  pub filter-append :
      (p : A → Bool) (xs ys : List A) → filter p (xs ++ ys) ≡ filter p xs ++ filter p ys
  unfolding filter
  filter-append p [] ys = refl
  filter-append p (x ∷ xs) ys = ground (arith, filter-append p xs ys)

  pub length-filter-le : (p : A → Bool) (xs : List A) → length (filter p xs) ≤ length xs
  unfolding filter
  length-filter-le p [] = omega arith
  length-filter-le p (x ∷ xs) = ground (arith, length-filter-le p xs)

  -- two filters agree if their tests agree on the elements
  pub filter_congr :
      (dec : Discrete A) (p q : A → Bool) (xs : List A)
      → ((x : A) → contains dec x xs ≡ true → p x ≡ q x)
      → filter p xs ≡ filter q xs
  unfolding filter contains
  filter_congr dec p q [] h = refl
  filter_congr dec p q (x ∷ xs) h =
      ground
        (arith, h x (contains_self dec x xs), filter_congr dec p q xs (λ z m. h z (ground arith)))

  abbrev pub last_of : A → List A → A
  last_of x [] = x
  last_of x (y ∷ ys) = last_of y ys

  abbrev pub All {κ} : (A → Type κ) → List A → Type κ
  All P [] = Unit
  All P (x ∷ xs) = P x × All P xs

module _ {ℓ} {A : Type ℓ} where
  pub filter_congr-All :
      (p q : A → Bool) (xs : List A) → All (λ x. p x ≡ q x) xs → filter p xs ≡ filter q xs
  unfolding filter
  filter_congr-All p q [] h = refl
  filter_congr-All p q (x ∷ xs) h = ground (arith, h.0, filter_congr-All p q xs h.1)

  pub filter-All_self : (p : A → Bool) (xs : List A) → All (λ x. p x ≡ true) xs → filter p xs ≡ xs
  unfolding filter
  filter-All_self p [] h = refl
  filter-All_self p (x ∷ xs) h = ground (arith, h.0, filter-All_self p xs h.1)

  pub All-map {κ μ} :
      {P : A → Type κ} {Q : A → Type μ} (xs : List A) → ((x : A) → P x → Q x) → All P xs → All Q xs
  All-map [] f h = tt
  All-map (x ∷ xs) f h = (f x h.0, All-map xs f h.1)

  pub filter-All : (P : A → Type 0) (p : A → Bool) (xs : List A) → All P xs → All P (filter p xs)
  unfolding filter
  filter-All P p [] h = tt
  filter-All P p (x ∷ xs) h = elim (Bool-cases (p x)) [
    | inl e ↦ rw e (h.0, filter-All P p xs h.1)
    | inr e ↦ rw e (filter-All P p xs h.1)
  ]

  -- what a filter keeps passes its test
  pub All-filter : (p : A → Bool) (xs : List A) → All (λ x. p x ≡ true) (filter p xs)
  unfolding filter
  All-filter p [] = tt
  All-filter p (x ∷ xs) = elim (Bool-cases (p x)) [
    | inl e ↦ rw e (e, All-filter p xs)
    | inr e ↦ rw e (All-filter p xs)
  ]

  pub All-last_of {κ} : (P : A → Type κ) (x : A) (xs : List A) → All P (x ∷ xs) → P (last_of x xs)
  All-last_of P x [] h = h.0
  All-last_of P x (y ∷ ys) h = All-last_of P y ys h.1

  pub All-both {κ μ} :
      (P : A → Type κ) (Q : A → Type μ) (xs : List A)
      → All P xs
      → All Q xs
      → All (λ x. P x × Q x) xs
  All-both P Q [] h k = tt
  All-both P Q (x ∷ xs) h k = ((h.0, k.0), All-both P Q xs h.1 k.1)

  -- each element's image is among the images
  pub All-contains {κ} :
      {B : Type κ} (dec : Discrete B) (f : A → B) (xs : List A)
      → All (λ x. contains dec (f x) (map f xs) ≡ true) xs
  unfolding contains
  All-contains dec f [] = tt
  All-contains dec f (x ∷ xs) = (
    contains_self dec (f x) (map f xs),
    All-map xs (λ z h. ground (arith, h)) (All-contains dec f xs),
  )

  pub contains-filter :
      (dec : Discrete A) (p : A → Bool) (x : A) (xs : List A)
      → contains dec x (filter p xs) ≡ (if p x then contains dec x xs else false)
  unfolding contains filter
  contains-filter dec p x [] = ground arith
  contains-filter dec p x (y ∷ ys) = ground (arith, contains-filter dec p x ys)

module _ {ℓ κ} {A : Type ℓ} (P : A → Type κ) where
  pub All-append : (xs ys : List A) → All P xs → All P ys → All P (xs ++ ys)
  All-append [] ys h k = k
  All-append (x ∷ xs) ys h k = (h.0, All-append xs ys h.1 k)

  pub All-append_inv : (xs ys : List A) → All P (xs ++ ys) → All P xs × All P ys
  All-append_inv [] ys h = (tt, h)
  All-append_inv (x ∷ xs) ys h = let rest = All-append_inv xs ys h.1 in ((h.0, rest.0), rest.1)

abbrev pub sum : List ℕ → ℕ
sum [] = 0
sum (x ∷ xs) = x + sum xs
