-- ===== src/Board/Months.antt =====
-- The months of the calendar, as the ends of the periods of a leaderboard.
use native.Mathlib.Nat.{le_refl}
use analytics_pipeline.Prelude.{
  ℕ, ◌+◌, ◌*◌, ◌<◌, ◌≤◌, true, false, ltb, ite, if◌then◌else◌, ◌==◌, ◌&&◌, ◌≡◌, refl, ap, arith,
  Bool-cases, inl, inr,
}
use analytics_pipeline.Moment.{Datetime, HasClockTime, micros, ordinal, at_most, before}
use analytics_pipeline.Moment.Calendar.{IsMoment, days_in_month, ordinal_year, ordinal_month}
use analytics_pipeline.Query.Leaderboard.{month_start, period_end}
use analytics_pipeline.Board.Increments.{Period, Period_discrete, period_key}

month_start-IsMoment :
    (year month : ℕ) → 1 ≤ year → 1 ≤ month → month ≤ 12 → IsMoment (month_start year month)
unfolding month_start days_in_month
month_start-IsMoment year month h i j = record {
  year_from = h;
  month_from = i;
  month_to = j;
  day_from = omega arith;
  day_to = ground arith;
  clock = record {
    hour_lt = omega arith;
    minute_lt = omega arith;
    second_lt = omega arith;
    microsecond_lt = omega arith;
  };
}

-- a moment on an earlier day is earlier
micros_day :
    (a b : Datetime)
    → HasClockTime a
    → ordinal a.year a.month a.day < ordinal b.year b.month b.day
    → micros a < micros b
unfolding micros
micros_day a b c h = omega (arith, h, c.hour_lt, c.minute_lt, c.second_lt, c.microsecond_lt)

-- the next month starts on a later day
next_month :
    (t : Datetime)
    → IsMoment t
    → let end = period_end t.year t.month in
      ordinal t.year t.month t.day < ordinal end.year end.month end.day
unfolding period_end month_start
next_month t v = elim (Bool-cases (t.month == 12)) [
  | inl last ↦ rw (last) (
      ordinal_year t (month_start (1 + t.year) 1) v
        (month_start-IsMoment (1 + t.year) 1 (omega arith) (omega arith) (omega arith))
        (omega arith))
  | inr earlier ↦ rw (earlier) (
      ordinal_month t (month_start t.year (1 + t.month)) v
        (month_start-IsMoment t.year (1 + t.month) v.year_from (omega arith)
          (ground (arith, earlier, v.month_to)))
        refl (omega arith))
]

-- A moment is not before the start of its month, and is before the start of the next.
pub month_start_lem :
    (t : Datetime)
    → IsMoment t
    → (at_most (month_start t.year t.month) t ≡ true)
      × (before t (period_end t.year t.month) ≡ true)
unfolding at_most before month_start micros ordinal
month_start_lem t v = (
  ground (arith, v.day_from),
  ground (arith, micros_day t (period_end t.year t.month) v.clock (next_month t v)),
)

-- A year and a month that exist.
pub record IsMonth (p : Period) : Type 0 where
  pub year_from : 1 ≤ p.year
  pub month_from : 1 ≤ p.month
  pub month_to : p.month ≤ 12

-- months in a row
place : Period → ℕ
place p = p.year * 12 + p.month

start_of : Period → ℕ
start_of p = micros (month_start p.year p.month)

end_of : Period → ℕ
end_of p = micros (period_end p.year p.month)

next : Period → Period
next p =
    if p.month == 12
    then record { year = 1 + p.year; month = 1 }
    else record { year = p.year; month = 1 + p.month }

period_IsMoment : (p : Period) → IsMonth p → IsMoment (month_start p.year p.month)
period_IsMoment p h = month_start-IsMoment p.year p.month h.year_from h.month_from h.month_to

start_le : (p q : Period) → IsMonth p → IsMonth q → place p ≤ place q → start_of p ≤ start_of q
unfolding place start_of month_start
start_le p q hp hq h =
    let a = month_start p.year p.month in
    let b = month_start q.year q.month in
    let va = period_IsMoment p hp in
    let vb = period_IsMoment q hq in
    let day = micros_day a b va.clock in
    elim (Bool-cases (ltb p.year q.year)) [
      | inl earlier ↦ omega (arith, day (ordinal_year a b va vb (ground (arith, earlier))))
      | inr later ↦
          let same : p.year ≡ q.year =
            ground (arith, later, h, hp.month_from, hp.month_to, hq.month_from, hq.month_to) in
          elim (Bool-cases (ltb p.month q.month)) [
            | inl sooner ↦
                omega (arith, day (ordinal_month a b va vb same (ground (arith, sooner))))
            | inr not_sooner ↦
                let same_month : p.month ≡ q.month = ground (arith, not_sooner, h, same) in
                rw (same, same_month) (le_refl _)
          ]
    ]

next_lem :
    (p : Period)
    → IsMonth p
    → IsMonth (next p) × (end_of p ≡ start_of (next p)) × (place (next p) ≡ 1 + place p)
unfolding next end_of start_of place period_end
next_lem p h = elim (Bool-cases (p.month == 12)) [
  | inl last ↦ rw (last) (
    record { year_from = omega arith; month_from = omega arith; month_to = omega arith },
    refl,
    ground (arith, last),
  )
  | inr earlier ↦ rw (earlier) (
    record {
      year_from = h.year_from;
      month_from = omega arith;
      month_to = ground (arith, earlier, h.month_to);
    },
    refl,
    omega arith,
  )
]

-- a period ends before a later one starts
end_le : (p q : Period) → IsMonth p → IsMonth q → place p < place q → end_of p ≤ start_of q
end_le p q hp hq h =
    let (month, start, after) = next_lem p hp in
    rw (start) (start_le (next p) q month hq (omega (arith, after, h)))

pub start_of-le :
    (p : Period)
    → IsMonth p
    → micros (month_start p.year p.month) ≤ micros (period_end p.year p.month)
unfolding start_of end_of
start_of-le p h =
    let (month, start, after) = next_lem p h in
    rw (start) (start_le p (next p) h month (omega (arith, after)))

key_IsMonth : (t : Datetime) → IsMoment t → IsMonth (period_key t)
unfolding period_key
key_IsMonth t v = record {
  year_from = v.year_from;
  month_from = v.month_from;
  month_to = v.month_to;
}

same_place : (p q : Period) → IsMonth p → IsMonth q → place p ≡ place q → p ≡ q
unfolding place
same_place p q hp hq h =
    let year : p.year ≡ q.year =
      omega (arith, h, hp.month_from, hp.month_to, hq.month_from, hq.month_to) in
    let month : p.month ≡ q.month = omega (arith, h, year) in ground arith

-- A moment has the key of a period exactly if it is not before its start and before its end.
pub period_key_lem :
    (t : Datetime) (p : Period)
    → IsMoment t
    → IsMonth p
    → ite (Period_discrete (period_key t) p) true false
      ≡ (at_most (month_start p.year p.month) t && before t (period_end p.year p.month))
unfolding start_of end_of at_most before
period_key_lem t p v h =
    let k = period_key t in
    let hk = key_IsMonth t v in
    let (begun, not_ended) = month_start_lem t v in
    let start : start_of k ≤ micros t = unfold period_key in ground (arith, begun) in
    let end : micros t < end_of k = unfold period_key in ground (arith, not_ended) in
    elim (Period_discrete k p) [
      | yes same ↦ ground (arith, ap start_of same, ap end_of same, start, end)
      | no other ↦ elim (Bool-cases (ltb (place k) (place p))) [
        | inl sooner ↦ ground (arith, end, end_le k p hk h (ground (arith, sooner)))
        | inr not_sooner ↦ elim (Bool-cases (ltb (place p) (place k))) [
          | inl later ↦ ground (arith, start, end_le p k h hk (ground (arith, later)))
          | inr not_later ↦
              absurd (other (same_place k p hk h (ground (arith, not_sooner, not_later))))
        ]
      ]
    ]
