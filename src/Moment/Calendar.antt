-- ===== src/Moment/Calendar.antt =====
-- Dates that exist, and that `micros` tells any two of their moments apart.
use analytics_pipeline.Prelude.{
  subst, sym, ap, ℕ, zero, suc, ◌+◌, ◌-◌, ◌*◌, ◌/◌, ◌<◌, ◌≤◌, if◌then◌else◌, ◌==◌, ◌||◌, ◌≡◌, arith,
}
use analytics_pipeline.Moment.{Datetime, HasClockTime, ordinal, micros, days_before_month, is_leap}

unfoldable pub days_in_month : ℕ → ℕ → ℕ
unfolding is_leap
days_in_month y m =
    if m == 2
    then (if is_leap y then 29 else 28)
    else if m == 4 || m == 6 || m == 9 || m == 11
    then 30
    else 31

-- What `datetime` itself checks.
pub record IsMoment (t : Datetime) : Type 0 where
  pub year_from : 1 ≤ t.year
  pub month_from : 1 ≤ t.month
  pub month_to : t.month ≤ 12
  pub day_from : 1 ≤ t.day
  pub day_to : t.day ≤ days_in_month t.year t.month
  pub clock : HasClockTime t

-- the days of the years before
years : ℕ → ℕ
years y = let p = y - 1 in p * 365 + p / 4 - p / 100 + p / 400

length_of_year : ℕ → ℕ
unfolding is_leap
length_of_year y = if is_leap y then 366 else 365

years-suc : (y : ℕ) → 1 ≤ y → years (y + 1) ≡ years y + length_of_year y
unfolding years length_of_year is_leap
years-suc y h = ground arith

month_ends :
    (y m : ℕ)
    → 1 ≤ m
    → m ≤ 11
    → days_before_month y m + days_in_month y m ≤ days_before_month y (m + 1)
unfolding days_before_month days_in_month is_leap
month_ends y m h k = ground arith

-- no month ends after a later one starts
later_month :
    (n y m : ℕ)
    → 1 ≤ m
    → m + 1 + n ≤ 12
    → days_before_month y m + days_in_month y m ≤ days_before_month y (m + 1 + n)
later_month zero y m h k = ground (arith, month_ends y m)
later_month (suc n) y m h k = ground (arith, later_month n y m, month_ends y (m + 1 + n))

year_ends :
    (y m : ℕ) → 1 ≤ m → m ≤ 12 → days_before_month y m + days_in_month y m ≤ length_of_year y
unfolding days_before_month days_in_month is_leap length_of_year
year_ends y m h k = ground arith

-- no year ends after a later one starts
later_year : (n y : ℕ) → 1 ≤ y → years y + length_of_year y ≤ years (y + 1 + n)
later_year zero y h = ground (arith, years-suc y)
later_year (suc n) y h = ground (arith, later_year n y, years-suc (y + 1 + n))

ordinal-years : (y m d : ℕ) → ordinal y m d ≡ years y + days_before_month y m + d
unfolding ordinal years
ordinal-years y m d = omega arith

year_lt : (y y' : ℕ) → 1 ≤ y → y < y' → years y + length_of_year y ≤ years y'
year_lt y y' h lt =
    let e : y + 1 + (y' - y - 1) ≡ y' = omega arith in
    subst (λ z. years y + length_of_year y ≤ years z) e (later_year (y' - y - 1) y h)

month_lt :
    (y m m' : ℕ)
    → 1 ≤ m
    → m < m'
    → m' ≤ 12
    → days_before_month y m + days_in_month y m ≤ days_before_month y m'
month_lt y m m' h lt k =
    let e : m + 1 + (m' - m - 1) ≡ m' = omega arith in
    subst (λ z. days_before_month y m + days_in_month y m ≤ days_before_month y z) e
      (later_month (m' - m - 1) y m h (omega arith))

module _ (a b : Datetime) (va : IsMoment a) (vb : IsMoment b) where
  pub ordinal_year : a.year < b.year → ordinal a.year a.month a.day < ordinal b.year b.month b.day
  ordinal_year lt = omega (
    arith,
    ordinal-years a.year a.month a.day,
    ordinal-years b.year b.month b.day,
    year_lt a.year b.year va.year_from lt,
    year_ends a.year a.month va.month_from va.month_to,
    va.day_to,
    vb.day_from,
  )

  pub ordinal_month :
      a.year ≡ b.year
      → a.month < b.month
      → ordinal a.year a.month a.day < ordinal b.year b.month b.day
  ordinal_month same lt = omega (
    arith,
    ordinal-years a.year a.month a.day,
    ordinal-years b.year b.month b.day,
    ap years same,
    ap (λ y. days_before_month y b.month) same,
    month_lt a.year a.month b.month va.month_from lt vb.month_to,
    va.day_to,
    vb.day_from,
  )

  ordinal_day :
      a.year ≡ b.year
      → a.month ≡ b.month
      → ordinal a.year a.month a.day + b.day ≡ ordinal b.year b.month b.day + a.day
  ordinal_day same same' = omega (
    arith,
    ordinal-years a.year a.month a.day,
    ordinal-years b.year b.month b.day,
    ap years same,
    ap (λ y. days_before_month y a.month) same,
    ap (λ m. days_before_month b.year m) same',
  )

-- Two dates that exist have the same number of days before them only if they are the same date.
ordinal_inj :
    (a b : Datetime)
    → IsMoment a
    → IsMoment b
    → ordinal a.year a.month a.day ≡ ordinal b.year b.month b.day
    → (a.year ≡ b.year) × (a.month ≡ b.month) × (a.day ≡ b.day)
ordinal_inj a b va vb h =
    let year : a.year ≡ b.year =
      ground (arith, h, ordinal_year a b va vb, ordinal_year b a vb va) in
    let month : a.month ≡ b.month =
      ground (arith, h, year, ordinal_month a b va vb year, ordinal_month b a vb va (sym year)) in
    (year, month, omega (arith, h, ordinal_day a b va vb year month))

-- `micros` tells any two moments apart.
pub micros_inj : (a b : Datetime) → IsMoment a → IsMoment b → micros a ≡ micros b → a ≡ b
unfolding micros
micros_inj a b va vb h =
    let ca = va.clock in
    let cb = vb.clock in
    let days : ordinal a.year a.month a.day ≡ ordinal b.year b.month b.day = omega (
      arith, h, ca.hour_lt, ca.minute_lt, ca.second_lt, ca.microsecond_lt, cb.hour_lt, cb.minute_lt,
      cb.second_lt, cb.microsecond_lt,
    ) in
    let date = ordinal_inj a b va vb days in ground (arith, h, days, date)
