-- ===== src/Prelude/Decide.antt =====
-- Decidable equality of texts, which the libraries state as a Boolean test.
use Prim.Native.String.{String}
use mathlib.Core.Path.{◌≡◌, refl}
use mathlib.Core.Logic.{◌↔◌}
use mathlib.Core.Bool.{Bool, true, false}
use native.Mathlib.Omega.{arith}
use text.Mathlib.Text.{◌==◌}
use text.Mathlib.TextEquality.{eq_iff}

dec_by {ℓ} : {P : Type ℓ} (b : Bool) → (b ≡ true) ↔ P → Dec P
dec_by true h = yes (h.0 refl)
dec_by false h = no (λ p. let e : false ≡ true = h.1 p in ground arith)

unfoldable pub String_discrete : Discrete String
unfolding dec_by
String_discrete s t = dec_by (s == t) (eq_iff s t)
