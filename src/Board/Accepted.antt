-- ===== src/Board/Accepted.antt =====
-- The texts that GET /leaderboard accepts as a period.
use analytics_pipeline.Prelude.{ℕ, ◌+◌, ◌*◌, ◌-◌, ◌/◌, ◌%◌, ◌≤◌, true, [], ◌∷◌, ◌≡◌, refl, arith}
use analytics_pipeline.Result.{ok}
use analytics_pipeline.Board.Increments.{Period}
use analytics_pipeline.Board.PeriodKey.{
  Text, pattern, matches, is_digit, parse_period, split, cons_first, unpack, int_of, int_from,
}

-- the text of a period, its year padded to four digits
unfoldable pub padded : Period → Text
padded p =
    (b'0' + p.year / 1000)
    ∷ (b'0' + p.year / 100 % 10)
    ∷ (b'0' + p.year / 10 % 10)
    ∷ (b'0' + p.year % 10)
    ∷ b'-'
    ∷ (b'0' + p.month / 10)
    ∷ (b'0' + p.month % 10)
    ∷ []

-- the digits of a number of four digits, and of one of two
four_digits :
    (a b c d : ℕ)
    → a ≤ 9
    → b ≤ 9
    → c ≤ 9
    → d ≤ 9
    → let n = ((a * 10 + b) * 10 + c) * 10 + d in
      (n / 1000 ≡ a) × (n / 100 % 10 ≡ b) × (n / 10 % 10 ≡ c) × (n % 10 ≡ d)
four_digits a b c d h i j k = (omega arith, omega arith, omega arith, omega arith)

two_digits : (a b : ℕ) → a ≤ 9 → b ≤ 9 → ((a * 10 + b) / 10 ≡ a) × ((a * 10 + b) % 10 ≡ b)
two_digits a b h i = (omega arith, omega arith)

is_digit-value : (c : ℕ) → is_digit c ≡ true → (b'0' + (c - b'0') ≡ c) × (c - b'0' ≤ 9)
unfolding is_digit
is_digit-value c h = ground (arith, h)

padded-digits :
    (a b c d e f g : ℕ)
    → pattern (a ∷ b ∷ c ∷ d ∷ e ∷ f ∷ g ∷ []) ≡ true
    → padded (record {
      year = (((a - b'0') * 10 + (b - b'0')) * 10 + (c - b'0')) * 10 + (d - b'0');
      month = (f - b'0') * 10 + (g - b'0');
    })
      ≡ a ∷ b ∷ c ∷ d ∷ e ∷ f ∷ g ∷ []
unfolding pattern matches padded
padded-digits a b c d e f g h =
    let dash : e ≡ b'-' = ground (arith, h) in
    let da = is_digit-value a (ground (arith, h)) in
    let db = is_digit-value b (ground (arith, h)) in
    let dc = is_digit-value c (ground (arith, h)) in
    let dd = is_digit-value d (ground (arith, h)) in
    let df = is_digit-value f (ground (arith, h)) in
    let dg = is_digit-value g (ground (arith, h)) in
    let y = four_digits (a - b'0') (b - b'0') (c - b'0') (d - b'0') da.1 db.1 dc.1 dd.1 in
    let m = two_digits (f - b'0') (g - b'0') df.1 dg.1 in
    rw (y.0, y.1, y.2, y.3, m.0, m.1, da.0, db.0, dc.0, dd.0, df.0, dg.0, dash) refl

-- A text that the route accepts is read as a period, of which it is the text.
pub parse_period-pattern :
    (text : Text)
    → pattern text ≡ true
    → (p : Period) × (parse_period text ≡ ok p) × (padded p ≡ text)
unfolding pattern matches is_digit parse_period split cons_first unpack int_of int_from padded
parse_period-pattern (a ∷ b ∷ c ∷ d ∷ e ∷ f ∷ g ∷ []) h =
    let p : Period = record {
      year = (((a - b'0') * 10 + (b - b'0')) * 10 + (c - b'0')) * 10 + (d - b'0');
      month = (f - b'0') * 10 + (g - b'0');
    } in
    (p, ground (arith, h), padded-digits a b c d e f g h)
parse_period-pattern [] h = ground (arith, h)
parse_period-pattern (a ∷ []) h = ground (arith, h)
parse_period-pattern (a ∷ b ∷ []) h = ground (arith, h)
parse_period-pattern (a ∷ b ∷ c ∷ []) h = ground (arith, h)
parse_period-pattern (a ∷ b ∷ c ∷ d ∷ []) h = ground (arith, h)
parse_period-pattern (a ∷ b ∷ c ∷ d ∷ e ∷ []) h = ground (arith, h)
parse_period-pattern (a ∷ b ∷ c ∷ d ∷ e ∷ f ∷ []) h = ground (arith, h)
parse_period-pattern (a ∷ b ∷ c ∷ d ∷ e ∷ f ∷ g ∷ x ∷ xs) h = ground (arith, h)
