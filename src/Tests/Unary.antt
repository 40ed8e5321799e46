-- ===== src/Tests/Unary.antt =====
-- A counter as Redis might write it: one stroke for each.
use Prim.Native.Nat.{ℕ, zero, suc}
use Prim.Native.String.{String, [], ◌∷◌}
use mathlib.Core.Path.{◌≡◌, refl, ap}

unfoldable pub strokes : ℕ → String
strokes zero = []
strokes (suc n) = "|" ∷ strokes n

unfoldable pub number_of_strokes : String → ℕ
number_of_strokes [] = 0
number_of_strokes (c ∷ s) = suc (number_of_strokes s)

pub number_of_strokes-strokes : (n : ℕ) → number_of_strokes (strokes n) ≡ n
unfolding strokes number_of_strokes
number_of_strokes-strokes zero = refl
number_of_strokes-strokes (suc n) = ap suc (number_of_strokes-strokes n)
