-- ===== src/Moment.antt =====
-- `datetime` as the program uses it: a moment in UTC by its calendar fields. Columns of type
-- TIMESTAMPTZ come back in UTC, and the services build theirs with `timezone.utc`.
pub mod Calendar
use analytics_pipeline.Prelude.{
  ℕ, ◌+◌, ◌-◌, ◌*◌, ◌/◌, ◌%◌, ◌<◌, Bool, leb, ltb, ◌==◌, ◌&&◌, ◌||◌, not, if◌then◌else◌, ℕ_discrete,
}

pub record Datetime : Type 0 where
  pub year : ℕ
  pub month : ℕ
  pub day : ℕ
  pub hour : ℕ
  pub minute : ℕ
  pub second : ℕ
  pub microsecond : ℕ

unfoldable pub Datetime_discrete : Discrete Datetime
unfolding ℕ_discrete
Datetime_discrete = hlevel ℕ_discrete

-- What `datetime` itself checks of the time of day.
pub record HasClockTime (t : Datetime) : Type 0 where
  pub hour_lt : t.hour < 24
  pub minute_lt : t.minute < 60
  pub second_lt : t.second < 60
  pub microsecond_lt : t.microsecond < 1000000

unfoldable pub is_leap : ℕ → Bool
is_leap y = y % 4 == 0 && (not (y % 100 == 0) || y % 400 == 0)

unfoldable pub days_before_month : ℕ → ℕ → ℕ
unfolding is_leap
days_before_month y m =
    let leap : ℕ = if is_leap y then 1 else 0 in
    if leb m 1
    then 0
    else if leb m 2
    then 31
    else (if m == 3
        then 59
        else if m == 4
        then 90
        else if m == 5
        then 120
        else if m == 6
        then 151
        else if m == 7
        then 181
        else if m == 8
        then 212
        else if m == 9
        then 243
        else if m == 10
        then 273
        else if m == 11
        then 304
        else 334)
      + leap

-- date.toordinal()
unfoldable pub ordinal : ℕ → ℕ → ℕ → ℕ
unfolding days_before_month
ordinal y m d = let p = y - 1 in p * 365 + p / 4 - p / 100 + p / 400 + days_before_month y m + d

-- Microseconds since the day before 0001-01-01. Moments are ordered and subtracted by it.
unfoldable pub micros : Datetime → ℕ
micros t =
    (((ordinal t.year t.month t.day * 24 + t.hour) * 60 + t.minute) * 60 + t.second) * 1000000
    + t.microsecond

-- a <= b
unfoldable pub at_most : Datetime → Datetime → Bool
at_most a b = leb (micros a) (micros b)

-- a < b
unfoldable pub before : Datetime → Datetime → Bool
before a b = ltb (micros a) (micros b)
