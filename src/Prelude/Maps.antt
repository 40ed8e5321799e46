-- ===== src/Prelude/Maps.antt =====
-- Maps with a key that occurs once: a Python `dict` in insertion order, and an SQL table with a
-- primary key. `update k f` writes `f` of what stands at `k`, in place, or appends it.
use mathlib.Core.List.{List, [], ◌∷◌}
use mathlib.Core.Logic.{ite, if_pos, if_neg}
use mathlib.Core.Option.{Option, none, some}
use mathlib.Core.Path.{◌≡◌, refl}
use native.Mathlib.Omega.{arith}

abbrev pub Dict {ℓ} : Type ℓ → Type ℓ → Type ℓ
Dict K V = List (K × V)

module _ {ℓ} {K V : Type ℓ} (dec : Discrete K) where
  unfoldable pub get : K → Dict K V → Option V
  get k [] = none
  get k ((j, v) ∷ d) = ite (dec j k) (some v) (get k d)

  unfoldable pub update : K → (Option V → V) → Dict K V → Dict K V
  update k f [] = (k, f none) ∷ []
  update k f ((j, v) ∷ d) = ite (dec j k) ((j, f (some v)) ∷ d) ((j, v) ∷ update k f d)

  -- a write is read back at its key, and leaves every other key alone
  pub get-update :
      (k j : K) (f : Option V → V) (d : Dict K V)
      → get j (update k f d) ≡ ite (dec k j) (some (f (get k d))) (get j d)
  unfolding get update
  get-update k j f [] = refl
  get-update k j f ((i, v) ∷ d) = ground (arith, get-update k j f d)

  -- no key stands twice
  abbrev pub HasDistinctKeys : Dict K V → Type ℓ
  HasDistinctKeys [] = Unit
  HasDistinctKeys ((j, v) ∷ d) = (get j d ≡ none) × HasDistinctKeys d

  -- a write keeps the keys distinct
  pub update-HasDistinctKeys :
      (k : K) (f : Option V → V) (d : Dict K V) → HasDistinctKeys d → HasDistinctKeys (update k f d)
  unfolding update get
  update-HasDistinctKeys k f [] h = (refl, tt)
  update-HasDistinctKeys k f ((i, v) ∷ d) h = elim (dec i k) [
    | yes p ↦ rw (if_pos _ p) h
    | no p ↦ rw (if_neg _ p) (ground (arith, get-update k i f d), update-HasDistinctKeys k f d h.1)
  ]
