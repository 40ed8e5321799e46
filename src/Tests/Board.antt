-- ===== src/Tests/Board.antt =====
-- The leaderboard at concrete inputs, with sorted sets that are functions.
use analytics_pipeline.Prelude.{
  Dict, leb, get-update, sort_by, take, ℕ, ◌+◌, [], ◌∷◌, Bool, true, false, Option, none, some, ite,
  ℕ_discrete, String_discrete, get, update, length, ◌≡◌, refl, arith,
}
use analytics_pipeline.Settings.{default_settings}
use analytics_pipeline.Rollup.Buckets.{bucket_ts}
use analytics_pipeline.Board.Increments.{
  Period, Period_discrete, period_key, or_zero, or_empty, increment, increments_from,
  period_increments, volume,
}
use analytics_pipeline.Board.SortedSets.{SortedSets}
use analytics_pipeline.Board.Update.{update_leaderboard}
use analytics_pipeline.Board.Serve.{is_period, get_leaderboard}
use analytics_pipeline.Board.Cold.{get_leaderboard-warm}
use analytics_pipeline.Tests.Data.{first, second}
use analytics_pipeline.Tests.Query.{db}

-- the members of each set with their scores; an empty set does not exist
abbrev pub Sets : Type 0
Sets = Period → Dict ℕ ℕ

pub write : Period → ℕ → (Option ℕ → ℕ) → Sets → Sets
write period merchant f s =
    λ p. ite (Period_discrete period p) (update ℕ_discrete merchant f (s p)) (s p)

pub drop_set : Period → Sets → Sets
drop_set period s = λ p. ite (Period_discrete period p) [] (s p)

unfoldable pub is_present : Dict ℕ ℕ → Bool
is_present [] = false
is_present (x ∷ d) = true

pub by_score : ℕ × ℕ → ℕ × ℕ → Bool
by_score (m, a) (n, b) = leb b a

pub get-write :
    (period p : Period) (merchant m : ℕ) (f : Option ℕ → ℕ) (s : Sets)
    → get ℕ_discrete m (write period merchant f s p)
      ≡ ite
          (Period_discrete period p)
          (ite (ℕ_discrete merchant m) (some (f (get ℕ_discrete m (s p)))) (get ℕ_discrete m (s p)))
          (get ℕ_discrete m (s p))
unfolding write
get-write period p merchant m f s = ground (arith, get-update ℕ_discrete merchant m f (s p))

pub get-drop_set :
    (period p : Period) (m : ℕ) (s : Sets)
    → get ℕ_discrete m (drop_set period s p)
      ≡ ite (Period_discrete period p) none (get ℕ_discrete m (s p))
unfolding drop_set get
get-drop_set period p m s = ground arith

pub is_present-get :
    (m score : ℕ) (d : Dict ℕ ℕ) → get ℕ_discrete m d ≡ some score → is_present d ≡ true
unfolding get is_present
is_present-get m score [] h = ground (arith, h)
is_present-get m score (x ∷ d) h = refl

abbrev pub server : SortedSets Sets
server = record {
  zscore = λ p m s. get ℕ_discrete m (s p);
  zincrby = λ p amount m s. write p m (λ n. or_zero n + amount) s;
  expire = λ p seconds s. s;
  delete = drop_set;
  zadd = λ p m score s. write p m (λ _. score) s;
  exists = λ p s. is_present (s p);
  incr = λ counter s. s;
  zrevrange = λ p n s. take n (sort_by by_score (s p));
  zscore-zincrby =
      λ period p merchant amount m s. get-write period p merchant m (λ n. or_zero n + amount) s;
  zscore-expire = λ period p seconds m s. refl;
  zscore-delete = λ period p m s. get-drop_set period p m s;
  zscore-zadd = λ period p merchant score m s. get-write period p merchant m (λ _. score) s;
  exists-zscore = λ period m score s h. is_present-get m score (s period) h;
}

abbrev pub none_yet : Sets
none_yet = λ p. []

abbrev pub may : Period
may = record { year = 2026; month = 5 }

board_program : Unit {0}
unfolding get update ℕ_discrete String_discrete Period_discrete period_key bucket_ts or_zero
    or_empty increment increments_from period_increments volume is_period is_present write
board_program = tt

-- two confirmed payments of one merchant are one increment
collected : period_increments (first ∷ second ∷ []) ≡ (may, (7, 1250) ∷ []) ∷ []
unfolding board_program
collected = refl

get_leaderboard-warm_example :
    get_leaderboard server default_settings may 5 db (
      update_leaderboard server
        (length (period_increments (first ∷ second ∷ [])))
        (first ∷ second ∷ [])
        none_yet)
    ≡ get_leaderboard server default_settings may 5
        (record db { rollup_day = [] })
        (update_leaderboard server
          (length (period_increments (first ∷ second ∷ [])))
          (first ∷ second ∷ [])
          none_yet)
unfolding board_program
get_leaderboard-warm_example =
    get_leaderboard-warm server default_settings may 5 db (record db { rollup_day = [] })
      (first ∷ second ∷ []) 7 none_yet (omega arith)
