-- ===== src/Board/SortedSets.antt =====
-- What the leaderboard asks of Redis: the commands that app/repositories/redis_repository.py sends
-- on sorted sets, as operations on a state, with what Redis documents of them. A score is a
-- whole number; Redis keeps it as a double, which is exact up to 2 ^ 53.
use analytics_pipeline.Prelude.{
  String, ℕ, ◌+◌, List, Bool, true, Option, none, some, ite, ℕ_discrete, ◌≡◌,
}
use analytics_pipeline.Board.Increments.{Period, Period_discrete, or_zero}

pub record SortedSets (State : Type 0) : Type 0 where
  -- the score of a member in the set of a period
  pub zscore : Period → ℕ → State → Option ℕ
  pub zincrby : Period → ℕ → ℕ → State → State
  pub expire : Period → ℕ → State → State
  pub delete : Period → State → State
  pub zadd : Period → ℕ → ℕ → State → State
  pub exists : Period → State → Bool
  -- ZREVRANGE key 0 n - 1 WITHSCORES
  pub zrevrange : Period → ℕ → State → List (ℕ × ℕ)
  -- INCR, of a counter
  pub incr : String → State → State
  -- ZINCRBY adds to the score of its member, which counts as 0 if it is absent
  pub zscore-zincrby :
      (period p : Period) (merchant amount m : ℕ) (s : State)
      → zscore p m (zincrby period amount merchant s)
        ≡ ite
            (Period_discrete period p)
            (ite (ℕ_discrete merchant m) (some (or_zero (zscore p m s) + amount)) (zscore p m s))
            (zscore p m s)
  -- EXPIRE leaves the set as it is until its time has come
  pub zscore-expire :
      (period p : Period) (seconds m : ℕ) (s : State)
      → zscore p m (expire period seconds s) ≡ zscore p m s
  -- DEL removes one set
  pub zscore-delete :
      (period p : Period) (m : ℕ) (s : State)
      → zscore p m (delete period s) ≡ ite (Period_discrete period p) none (zscore p m s)
  -- ZADD sets the score of its member
  pub zscore-zadd :
      (period p : Period) (merchant score m : ℕ) (s : State)
      → zscore p m (zadd period merchant score s)
        ≡ ite
            (Period_discrete period p)
            (ite (ℕ_discrete merchant m) (some score) (zscore p m s))
            (zscore p m s)
  -- a set with a member exists
  pub exists-zscore :
      (period : Period) (m score : ℕ) (s : State)
      → zscore period m s ≡ some score
      → exists period s ≡ true
