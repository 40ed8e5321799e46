-- ===== src/Board/Increments.antt =====
-- The increments that `_update_leaderboard` of app/workers/rollup_worker.py collects from a batch.
use analytics_pipeline.Prelude.{
  ℕ, ◌+◌, ◌≤◌, length, List, [], ◌∷◌, Option, none, some, Dict, update, ite, ℕ_discrete,
  String_discrete, ◌≡◌, arith,
}
use analytics_pipeline.Moment.{Datetime}
use analytics_pipeline.Records.{RawEvent}
use analytics_pipeline.Rollup.Buckets.{bucket_ts}

-- strftime("%Y-%m"), as year and month
pub record Period : Type 0 where
  pub year : ℕ
  pub month : ℕ

unfoldable pub Period_discrete : Discrete Period
unfolding ℕ_discrete
Period_discrete = hlevel ℕ_discrete

-- `_period_key`
unfoldable pub period_key : Datetime → Period
period_key ts = record { year = ts.year; month = ts.month }

-- the value of `defaultdict(int)` and of the outer `defaultdict`
unfoldable pub or_zero : Option ℕ → ℕ
or_zero none = 0
or_zero (some n) = n

unfoldable pub or_empty : Option (Dict ℕ ℕ) → Dict ℕ ℕ
or_empty none = []
or_empty (some d) = d

abbrev pub Increments : Type 0
Increments = Dict Period (Dict ℕ ℕ)

-- period_increments[period][merchant] += amount
unfoldable pub increment : Period → ℕ → ℕ → Increments → Increments
increment period merchant amount =
    update Period_discrete period
      (λ merchants. update ℕ_discrete merchant (λ n. or_zero n + amount) (or_empty merchants))

unfoldable pub increments_from : Increments → List RawEvent → Increments
increments_from m [] = m
increments_from m (event ∷ events) =
    increments_from
      (ite (String_discrete event.event_type "PAYMENT_CONFIRMED")
        (increment (period_key (bucket_ts event)) event.merchant_id event.amount_cents m) m)
      events

unfoldable pub period_increments : List RawEvent → Increments
period_increments events = increments_from [] events

-- the confirmed volume of a merchant in a period
unfoldable pub volume : Period → ℕ → List RawEvent → ℕ
volume period merchant [] = 0
volume period merchant (event ∷ events) =
    ite (String_discrete event.event_type "PAYMENT_CONFIRMED")
      (ite (Period_discrete (period_key (bucket_ts event)) period)
        (ite (ℕ_discrete event.merchant_id merchant) event.amount_cents 0) 0)
      0
    + volume period merchant events

-- what a map of increments holds for a merchant, and for a merchant in a period
unfoldable pub held : ℕ → Dict ℕ ℕ → ℕ
held merchant [] = 0
held merchant ((m, n) ∷ d) = ite (ℕ_discrete m merchant) n 0 + held merchant d

unfoldable pub held_in : Period → ℕ → Increments → ℕ
held_in period merchant [] = 0
held_in period merchant ((p, d) ∷ m) =
    ite (Period_discrete p period) (held merchant d) 0 + held_in period merchant m

held-update :
    (merchant m amount : ℕ) (d : Dict ℕ ℕ)
    → held merchant (update ℕ_discrete m (λ n. or_zero n + amount) d)
      ≡ held merchant d + ite (ℕ_discrete m merchant) amount 0
unfolding held update or_zero
held-update merchant m amount [] = ground arith
held-update merchant m amount ((k, n) ∷ d) = ground (arith, held-update merchant m amount d)

held_in-increment :
    (period p : Period) (merchant m amount : ℕ) (d : Increments)
    → held_in period merchant (increment p m amount d)
      ≡ held_in period merchant d
        + ite (Period_discrete p period) (ite (ℕ_discrete m merchant) amount 0) 0
unfolding held_in held increment update or_empty or_zero
held_in-increment period p merchant m amount [] = ground (arith, held-update merchant m amount [])
held_in-increment period p merchant m amount ((q, e) ∷ d) =
    ground (arith, held-update merchant m amount e, held_in-increment period p merchant m amount d)

held_in-increments_from :
    (period : Period) (merchant : ℕ) (d : Increments) (events : List RawEvent)
    → held_in period merchant (increments_from d events)
      ≡ held_in period merchant d + volume period merchant events
unfolding increments_from volume
held_in-increments_from period merchant d [] = omega arith
held_in-increments_from period merchant d (e ∷ es) =
    let period' = period_key (bucket_ts e) in
    elim (String_discrete e.event_type "PAYMENT_CONFIRMED") [
      | yes p ↦ ground (
        arith,
        held_in-increments_from period merchant (increment period' e.merchant_id e.amount_cents d)
            es,
        held_in-increment period period' merchant e.merchant_id e.amount_cents d,
      )
      | no p ↦ ground (arith, held_in-increments_from period merchant d es)
    ]

-- The increments hold the confirmed volume of each merchant in each period.
pub held_in-period_increments :
    (period : Period) (merchant : ℕ) (events : List RawEvent)
    → held_in period merchant (period_increments events) ≡ volume period merchant events
unfolding period_increments held_in
held_in-period_increments period merchant events =
    ground (arith, held_in-increments_from period merchant [] events)

length-increment :
    (period : Period) (merchant amount : ℕ) (m : Increments)
    → length (increment period merchant amount m) ≤ 1 + length m
unfolding increment update
length-increment period merchant amount [] = omega arith
length-increment period merchant amount ((q, d) ∷ m) =
    ground (arith, length-increment period merchant amount m)

length-increments_from :
    (m : Increments) (events : List RawEvent)
    → length (increments_from m events) ≤ length m + length events
unfolding increments_from
length-increments_from m [] = omega arith
length-increments_from m (e ∷ es) =
    let m' = increment (period_key (bucket_ts e)) e.merchant_id e.amount_cents m in
    elim (String_discrete e.event_type "PAYMENT_CONFIRMED") [
      | yes p ↦ ground (
        arith,
        length-increments_from m' es,
        length-increment (period_key (bucket_ts e)) e.merchant_id e.amount_cents m,
      )
      | no p ↦ ground (arith, length-increments_from m es)
    ]

-- there are no more periods than events
pub length-period_increments :
    (events : List RawEvent) → length (period_increments events) ≤ length events
unfolding period_increments
length-period_increments events = omega (arith, length-increments_from [] events)
