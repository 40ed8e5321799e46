-- ===== src/Board/PeriodKey.antt =====
-- The text of a period: `_period_key` of app/workers/rollup_worker.py and `_period_key_for_datetime` of
-- app/services/query_service.py, what GET /leaderboard accepts, and how `get_leaderboard` reads it.
-- A text is the list of its characters, which are ASCII.
use analytics_pipeline.Prelude.{
  ℕ, ◌+◌, ◌-◌, ◌*◌, ◌/◌, ◌%◌, ◌≤◌, Bool, true, false, List, [], ◌∷◌, ◌++◌, ltb, leb, ◌==◌, ◌&&◌,
  if◌then◌else◌, ◌≡◌, arith,
}
use analytics_pipeline.Result.{Result, ok, err, ◌>>=◌, value_error}
use analytics_pipeline.Moment.{Datetime}
use analytics_pipeline.Board.Increments.{Period, period_key}

abbrev pub Text : Type 0
Text = List ℕ

-- the decimal digits of a number below 10000
unfoldable pub decimal : ℕ → Text
decimal n =
    if ltb n 10
    then (b'0' + n) ∷ []
    else if ltb n 100
    then (b'0' + n / 10) ∷ (b'0' + n % 10) ∷ []
    else if ltb n 1000
    then (b'0' + n / 100) ∷ (b'0' + n / 10 % 10) ∷ (b'0' + n % 10) ∷ []
    else (b'0' + n / 1000) ∷ (b'0' + n / 100 % 10) ∷ (b'0' + n / 10 % 10) ∷ (b'0' + n % 10) ∷ []

-- ts.strftime("%Y-%m"); a year before 1000 is not padded
unfoldable pub period_text : Datetime → Text
unfolding decimal
period_text ts = decimal ts.year ++ b'-' ∷ (b'0' + ts.month / 10) ∷ (b'0' + ts.month % 10) ∷ []

unfoldable pub is_digit : ℕ → Bool
is_digit c = leb b'0' c && leb c b'9'

unfoldable pub matches : List (ℕ → Bool) → Text → Bool
matches [] [] = true
matches [] (c ∷ cs) = false
matches (p ∷ ps) [] = false
matches (p ∷ ps) (c ∷ cs) = p c && matches ps cs

-- ^\d{4}-\d{2}$
unfoldable pub pattern : Text → Bool
unfolding matches is_digit
pattern =
    matches
      (is_digit ∷ is_digit ∷ is_digit ∷ is_digit ∷ (λ c. c == b'-') ∷ is_digit ∷ is_digit ∷ [])

unfoldable pub cons_first : ℕ → List Text → List Text
cons_first c [] = (c ∷ []) ∷ []
cons_first c (t ∷ ts) = (c ∷ t) ∷ ts

-- text.split("-")
unfoldable pub split : Text → List Text
unfolding cons_first
split [] = [] ∷ []
split (c ∷ cs) = let rest = split cs in if c == b'-' then [] ∷ rest else cons_first c rest

unfoldable pub int_from : ℕ → Text → Result ℕ
unfolding is_digit
int_from n [] = ok n
int_from n (c ∷ cs) =
    let rest = int_from (n * 10 + (c - b'0')) cs in if is_digit c then rest else err value_error

-- int(p), of digits
unfoldable pub int_of : Text → Result ℕ
unfolding int_from
int_of [] = err value_error
int_of (c ∷ cs) = int_from 0 (c ∷ cs)

-- year, month = (int(p) for p in ...)
unfoldable pub unpack : List Text → Result Period
unfolding int_of
unpack [] = err value_error
unpack (a ∷ []) = int_of a >>= (λ year. err value_error)
unpack (a ∷ b ∷ []) = do
  year ← int_of a
  month ← int_of b
  ok (record { year = year; month = month })
unpack (a ∷ b ∷ c ∷ cs) = err value_error

unfoldable pub parse_period : Text → Result Period
unfolding split unpack
parse_period text = unpack (split text)

-- From the year 1000 on, the key of a moment is a text that GET /leaderboard accepts, and is read back as
-- its year and month.
pub parse_period-period_text :
    (ts : Datetime)
    → 1000 ≤ ts.year
    → ts.year ≤ 9999
    → 1 ≤ ts.month
    → ts.month ≤ 12
    → (pattern (period_text ts) ≡ true) × (parse_period (period_text ts) ≡ ok (period_key ts))
unfolding parse_period period_text pattern period_key
parse_period-period_text ts y y' m m' = (ground arith, ground arith)
