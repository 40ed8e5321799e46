-- ===== src/Redis/Keys.antt =====
-- The keys of app/repositories/redis_repository.py. How the standard library prints a UUID, a moment
-- and a whole number are arguments.
use Prim.Native.Nat.{ℕ}
use Prim.Native.String.{String, ◌++◌, count}
use mathlib.Core.Logic.{◌≢◌}
use mathlib.Core.Path.{◌≡◌, refl}
use native.Mathlib.Omega.{arith}
use text.Mathlib.TextEquality.{eq_iff}
use text.Mathlib.TextLemmas.{append_inj, append_cancel_left}
use analytics_pipeline.Moment.{Datetime}

-- `_leaderboard_key`
unfoldable pub leaderboard_key : String → String
leaderboard_key period = "leaderboard:volume:" ++ period

-- the key of a worker's heartbeat
unfoldable pub heartbeat_key : String → String
heartbeat_key worker_id = "worker:heartbeat:" ++ worker_id

-- `_metric_cache_key`
unfoldable pub metric_cache_key :
    (ℕ → String) → (Datetime → String) → ℕ → Datetime → Datetime → String → String
metric_cache_key str isoformat merchant start end granularity =
    "metrics:"
    ++ (str merchant
        ++ (":" ++ (isoformat start ++ (":" ++ (isoformat end ++ (":" ++ granularity))))))

-- `_sparkline_cache_key`
unfoldable pub sparkline_cache_key : (ℕ → String) → (ℕ → String) → ℕ → ℕ → String
sparkline_cache_key str decimal merchant window =
    "sparkline:" ++ (str merchant ++ (":" ++ decimal window))

-- a text that begins otherwise is another text
begins_otherwise : (s t u v : String) → count s ≡ count t → s ≢ t → (s ++ u) ≢ (t ++ v)
begins_otherwise s t u v same apart p = apart (append_inj p same).0

-- the sparklines are apart from the counters
pub sparkline_cache_key-cache_hits :
    (str decimal : ℕ → String) (merchant window : ℕ)
    → "metrics:cache_hits" ≢ sparkline_cache_key str decimal merchant window
unfolding sparkline_cache_key
sparkline_cache_key-cache_hits str decimal merchant window =
    begins_otherwise "metrics:ca" "sparkline:" "che_hits" _ refl
      (ground (arith, eq_iff "metrics:ca" "sparkline:"))

pub sparkline_cache_key-cache_misses :
    (str decimal : ℕ → String) (merchant window : ℕ)
    → "metrics:cache_misses" ≢ sparkline_cache_key str decimal merchant window
unfolding sparkline_cache_key
sparkline_cache_key-cache_misses str decimal merchant window =
    begins_otherwise "metrics:ca" "sparkline:" "che_misses" _ refl
      (ground (arith, eq_iff "metrics:ca" "sparkline:"))

-- Merchants and windows that differ have keys that differ, as every UUID is printed in as many
-- characters, and neither a UUID nor a number is printed like another.
pub sparkline_cache_key_inj :
    (str decimal : ℕ → String) (m n v w : ℕ)
    → ((a b : ℕ) → count (str a) ≡ count (str b))
    → sparkline_cache_key str decimal m v ≡ sparkline_cache_key str decimal n w
    → (str m ≡ str n) × (decimal v ≡ decimal w)
unfolding sparkline_cache_key
sparkline_cache_key_inj str decimal m n v w width p =
    let parts = append_inj (append_cancel_left "sparkline:" _ _ p) (width m n) in
    (parts.0, append_cancel_left ":" _ _ parts.1)
