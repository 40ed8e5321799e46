-- ===== src/Tests/Json.antt =====
-- A text form of numbers: strokes, each number with a comma behind it.
use Prim.Native.Nat.{ℕ, zero, suc, ◌+◌}
use Prim.Native.String.{String, [], ◌∷◌}
use Prim.Native.Char.{code}
use mathlib.Core.List
use mathlib.Core.Path.{◌≡◌, refl}
use native.Mathlib.Omega.{arith}
use analytics_pipeline.Prelude.{◌==◌, if◌then◌else◌}

put : ℕ → String → String
put zero s = "," ∷ s
put (suc n) s = "|" ∷ put n s

pub print : List.List ℕ → String
print List.[] = []
print (List.◌∷◌ n ns) = put n (print ns)

pub read : ℕ → String → List.List ℕ
read n [] = List.[]
read n (c ∷ s) =
    let more = read (n + 1) s in
    let rest = read 0 s in if code c == b',' then List.◌∷◌ n rest else more

read-put : (n acc : ℕ) (s : String) → read acc (put n s) ≡ List.◌∷◌ (acc + n) (read 0 s)
unfolding read put
read-put zero acc s = ground arith
read-put (suc n) acc s = ground (arith, read-put n (acc + 1) s)

pub read-print : (ns : List.List ℕ) → read 0 (print ns) ≡ ns
unfolding read print
read-print List.[] = refl
read-print (List.◌∷◌ n ns) = ground (arith, read-put n 0 (print ns), read-print ns)
