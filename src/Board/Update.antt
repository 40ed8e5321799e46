-- ===== src/Board/Update.antt =====
-- `leaderboard_increment_batch` of app/repositories/redis_repository.py, and the loop of
-- `_update_leaderboard` of app/workers/rollup_worker.py over it.
use analytics_pipeline.Prelude.{
  ℕ, ◌+◌, ◌*◌, ◌≤◌, List, [], ◌∷◌, Dict, ite, take, take-all, length, ◌≡◌, refl, sym, ap, ◌∙◌,
  arith,
}
use Prim.Native.Nat.{zero, suc}
use analytics_pipeline.Records.{RawEvent}
use analytics_pipeline.Board.Increments.{
  Period, Period_discrete, Increments, or_zero, held, held_in, period_increments, volume,
  held_in-period_increments, length-period_increments,
}
use analytics_pipeline.Board.SortedSets.{SortedSets}

module _ {State : Type 0} (redis : SortedSets State) where
  -- the ZINCRBY of each merchant
  unfoldable pub zincrby_all : Period → Dict ℕ ℕ → State → State
  zincrby_all period [] s = s
  zincrby_all period ((merchant, amount) ∷ increments) s =
      zincrby_all period increments (redis.zincrby period amount merchant s)

  -- `leaderboard_increment_batch`
  unfoldable pub leaderboard_increment_batch : Period → Dict ℕ ℕ → State → State
  leaderboard_increment_batch period [] s = s
  leaderboard_increment_batch period (m ∷ increments) s =
      redis.expire period (48 * 3600) (zincrby_all period (m ∷ increments) s)

  -- `leaderboard_increment`
  unfoldable pub leaderboard_increment : Period → ℕ → ℕ → State → State
  leaderboard_increment period merchant amount s =
      redis.expire period (48 * 3600) (redis.zincrby period amount merchant s)

  unfoldable pub increment_all : Increments → State → State
  increment_all [] s = s
  increment_all ((period, merchants) ∷ m) s =
      increment_all m (leaderboard_increment_batch period merchants s)

  -- `_update_leaderboard`: the first failure ends the loop, so that Redis answers to a first part
  -- of the periods, and the error is logged
  unfoldable pub update_leaderboard : ℕ → List RawEvent → State → State
  update_leaderboard answered events s = increment_all (take answered (period_increments events)) s

  zincrby_all-score :
      (period p : Period) (m : ℕ) (d : Dict ℕ ℕ) (s : State)
      → or_zero (redis.zscore p m (zincrby_all period d s))
        ≡ or_zero (redis.zscore p m s) + ite (Period_discrete period p) (held m d) 0
  unfolding zincrby_all held or_zero
  zincrby_all-score period p m [] s = ground arith
  zincrby_all-score period p m ((k, n) ∷ d) s = ground (
    arith,
    zincrby_all-score period p m d (redis.zincrby period n k s),
    redis.zscore-zincrby period p k n m s,
  )

  leaderboard_increment_batch-score :
      (period p : Period) (m : ℕ) (d : Dict ℕ ℕ) (s : State)
      → or_zero (redis.zscore p m (leaderboard_increment_batch period d s))
        ≡ or_zero (redis.zscore p m s) + ite (Period_discrete period p) (held m d) 0
  unfolding leaderboard_increment_batch held
  leaderboard_increment_batch-score period p m [] s = ground arith
  leaderboard_increment_batch-score period p m (e ∷ d) s = ground (
    arith,
    zincrby_all-score period p m (e ∷ d) s,
    redis.zscore-expire period p (48 * 3600) m (zincrby_all period (e ∷ d) s),
  )

  increment_all-score :
      (p : Period) (m : ℕ) (d : Increments) (s : State)
      → or_zero (redis.zscore p m (increment_all d s))
        ≡ or_zero (redis.zscore p m s) + held_in p m d
  unfolding increment_all held_in
  increment_all-score p m [] s = omega arith
  increment_all-score p m ((q, e) ∷ d) s = ground (
    arith,
    increment_all-score p m d (leaderboard_increment_batch q e s),
    leaderboard_increment_batch-score q p m e s,
  )

  held_in-take :
      (n : ℕ) (p : Period) (m : ℕ) (d : Increments) → held_in p m (take n d) ≤ held_in p m d
  unfolding held_in
  held_in-take zero p m d = omega arith
  held_in-take (suc n) p m [] = omega arith
  held_in-take (suc n) p m ((q, e) ∷ d) = ground (arith, held_in-take n p m d)

  -- After the update a merchant's score in a period has grown by at most the volume of its
  -- confirmed payments among the events, and by exactly that if Redis answers to every period.
  pub update_leaderboard-score :
      (answered : ℕ) (events : List RawEvent) (s : State) (p : Period) (m : ℕ)
      → (or_zero (redis.zscore p m (update_leaderboard answered events s))
          ≤ or_zero (redis.zscore p m s) + volume p m events)
        × (or_zero
              (redis.zscore p m (update_leaderboard (length (period_increments events)) events s))
            ≡ or_zero (redis.zscore p m s) + volume p m events)
  unfolding update_leaderboard
  update_leaderboard-score answered events s p m =
      let d = period_increments events in
      (
        ground (
          arith,
          increment_all-score p m (take answered d) s,
          held_in-take answered p m d,
          held_in-period_increments p m events,
        ),
        ground (
          arith,
          increment_all-score p m d s,
          take-all (length d) d (omega arith),
          held_in-period_increments p m events,
        ),
      )

  -- one payment is a batch of one
  pub leaderboard_increment_batch-one :
      (period : Period) (merchant amount : ℕ) (s : State)
      → leaderboard_increment_batch period ((merchant, amount) ∷ []) s
        ≡ leaderboard_increment period merchant amount s
  unfolding leaderboard_increment_batch zincrby_all leaderboard_increment
  leaderboard_increment_batch-one period merchant amount s = refl

  -- an answer to every period of the events
  pub update_leaderboard-answered :
      (answered : ℕ) (events : List RawEvent) (s : State)
      → length events ≤ answered
      → update_leaderboard answered events s
        ≡ update_leaderboard (length (period_increments events)) events s
  unfolding update_leaderboard
  update_leaderboard-answered answered events s h =
      let d = period_increments events in
      ap (λ m. increment_all m s)
        (take-all answered d (omega (arith, h, length-period_increments events))
          ∙ sym (take-all (length d) d (omega arith)))
