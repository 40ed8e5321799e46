-- ===== src/Redis/Strings.antt =====
-- What the program asks of Redis's texts and counters, with what Redis documents of them. A key whose
-- time has come is a state in which the key is absent.
use analytics_pipeline.Prelude.{ℕ, ◌+◌, String, Option, none, some, ite, String_discrete, ◌≡◌}

pub record Strings (State : Type 0) : Type 0 where
  pub get : String → State → Option String
  -- SET key value EX seconds
  pub set : String → String → ℕ → State → State
  pub incrby : String → ℕ → State → State
  pub expire : String → ℕ → State → State
  -- how Redis writes a counter, and how `int` reads it
  pub decimal : ℕ → String
  pub int : String → Option ℕ
  pub int-decimal : (n : ℕ) → int (decimal n) ≡ some n
  -- SET is read back at its key, and leaves every other key alone
  pub get-set :
      (k j value : String) (seconds : ℕ) (s : State)
      → get j (set k value seconds s) ≡ ite (String_discrete k j) (some value) (get j s)
  -- EXPIRE leaves the values as they are until the time has come
  pub get-expire : (k j : String) (seconds : ℕ) (s : State) → get j (expire k seconds s) ≡ get j s
  -- INCRBY counts from 0 if the key is absent, and leaves every other key alone
  pub incrby-absent :
      (k : String) (n : ℕ) (s : State) → get k s ≡ none → get k (incrby k n s) ≡ some (decimal n)
  pub incrby-present :
      (k : String) (n m : ℕ) (s : State)
      → get k s ≡ some (decimal m)
      → get k (incrby k n s) ≡ some (decimal (m + n))
  pub incrby-other :
      (k j : String) (n : ℕ) (s : State) → (k ≡ j → ⊥) → get j (incrby k n s) ≡ get j s
