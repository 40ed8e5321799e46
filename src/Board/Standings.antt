-- ===== src/Board/Standings.antt =====
-- From POST /events to a leaderboard that Redis does not have: what the rows of rollup_day come to, month
-- by month, beside the events that the worker has counted.
use analytics_pipeline.Prelude.{
  contains, ◌⊎◌, inl, inr, Option-cases, sym, if_pos, if_neg, All-map, All-perm, All-append_inv, ℕ,
  ◌+◌, Bool, true, false, List, [], ◌∷◌, Option, none, some, Dict, get, HasDistinctKeys, All,
  filter, filter-All, map, ite, if◌then◌else◌, ◌==◌, ◌&&◌, ℕ_discrete, String_discrete, ◌≡◌, refl,
  ◌∙◌, ap, arith,
}
use analytics_pipeline.Settings.{Settings}
use analytics_pipeline.Moment.{Datetime, micros, at_most, before}
use analytics_pipeline.Moment.Calendar.{IsMoment}
use analytics_pipeline.Records.{RawEvent, RollupKey, day}
use analytics_pipeline.Rollup.Buckets.{bucket_ts, bucket_of, rollup_key}
use analytics_pipeline.Rollup.Aligned.{bucket_of-IsAligned}
use analytics_pipeline.Database.{Database, empty_database, rollup_of}
use analytics_pipeline.Query.Group.{
  Row, Sums, sums_of, volume_of, rows_at, group_sums, get-group_sums, group_sums-HasDistinctKeys,
}
use analytics_pipeline.Query.Leaderboard.{
  confirmed_in, standing, standings, month_start, period_end, query_leaderboard_from_db-top,
}
use analytics_pipeline.Board.Increments.{Period, Period_discrete, period_key, volume}
use analytics_pipeline.Board.Cold.{month_rows}
use analytics_pipeline.Board.Months.{IsMonth, start_of-le, period_key_lem}
use analytics_pipeline.Worker.Exact.{marked}
use analytics_pipeline.Worker.Replay.{Reach}
use analytics_pipeline.Worker.Weigh.{weight, counted_weight}
use analytics_pipeline.Worker.Measure.{amount, column, part_of, share, held_by}
use analytics_pipeline.Worker.Measured.{Reach-IsMeasured}

-- the confirmed volume of a merchant on the day that starts at a moment
unfoldable pub volume_on : Datetime → ℕ → List RawEvent → ℕ
volume_on start merchant [] = 0
volume_on start merchant (event ∷ events) =
    (if micros (bucket_of day (bucket_ts event)) == micros start
      then ite (String_discrete event.event_type "PAYMENT_CONFIRMED")
          (ite (ℕ_discrete event.merchant_id merchant) event.amount_cents 0) 0
      else 0)
    + volume_on start merchant events

unfoldable pub volume_of_sums : Option Sums → ℕ
volume_of_sums none = 0
volume_of_sums (some s) = s.volume_cents

-- the events that the worker has counted
unfoldable pub counted_events : Settings → Database → List RawEvent
counted_events s db = filter (marked db.processed_rollup_events s.worker_id) db.raw_events

-- the confirmed volume of a merchant in a month, and on the first day of the next one
unfoldable pub confirmed_by : List RawEvent → Period → ℕ → ℕ
confirmed_by events p merchant =
    volume p merchant events + volume_on (period_end p.year p.month) merchant events

-- the rows that the query adds up for a merchant
unfoldable pub is_confirmed_in : Datetime → Datetime → ℕ → RollupKey → Bool
is_confirmed_in start end merchant k =
    ite (String_discrete k.event_type "PAYMENT_CONFIRMED")
      (ite (ℕ_discrete k.merchant_id merchant) (at_most start k.bucket && at_most k.bucket end)
        false)
      false

module _ (start end : Datetime) (merchant : ℕ) where
  volume_of_sums-sums_of : (rows : List Row) → volume_of_sums (sums_of rows) ≡ volume_of rows
  unfolding sums_of volume_of_sums
  volume_of_sums-sums_of [] = refl
  volume_of_sums-sums_of (row ∷ rows) = refl

  volume_of-rows_at :
      (t : List Row)
      → volume_of
          (rows_at ℕ_discrete (λ k. k.merchant_id) merchant (filter (confirmed_in start end) t))
        ≡ held_by amount (is_confirmed_in start end merchant) t
  unfolding filter rows_at confirmed_in is_confirmed_in held_by column
  volume_of-rows_at [] = refl
  volume_of-rows_at ((k, row) ∷ t) = ground (arith, volume_of-rows_at t)

module _ (p : Period) (h : IsMonth p) (merchant : ℕ) where
  -- what one event adds to the rows of the month
  share-volume :
      (e : RawEvent)
      → IsMoment (bucket_ts e)
      → share amount
          (is_confirmed_in (month_start p.year p.month) (period_end p.year p.month) merchant)
          day
          e
        ≡ volume p merchant (e ∷ []) + volume_on (period_end p.year p.month) merchant (e ∷ [])
  unfolding share part_of rollup_key is_confirmed_in volume volume_on at_most before
  share-volume e v =
      let b = bucket_of day (bucket_ts e) in
      let test : ite (Period_discrete (period_key (bucket_ts e)) p) true false
          ≡ (at_most (month_start p.year p.month) b && before b (period_end p.year p.month)) =
        unfold period_key bucket_of in
        period_key_lem b p (bucket_of-IsAligned day (bucket_ts e) v).moment h in
      ground (arith, test, start_of-le p h)

  weight-volume :
      (es : List RawEvent)
      → All (λ e. IsMoment (bucket_ts e)) es
      → weight
          (share amount
            (is_confirmed_in (month_start p.year p.month) (period_end p.year p.month) merchant)
            day)
          es
        ≡ volume p merchant es + volume_on (period_end p.year p.month) merchant es
  unfolding weight volume volume_on
  weight-volume [] v = refl
  weight-volume (e ∷ es) v = ground (arith, share-volume e v.0, weight-volume es v.1)

get-own :
    (groups : Dict ℕ Sums)
    → HasDistinctKeys ℕ_discrete groups
    → All (λ g. get ℕ_discrete g.0 groups ≡ some g.1) groups
unfolding get
get-own [] h = tt
get-own ((j, s) ∷ groups) h = (
  if_pos (ℕ_discrete j j) refl _ _,
  All-map groups
      (λ g own. elim (ℕ_discrete j g.0) [
        | yes p ↦
            let e : ◌≡◌ {A = Option Sums} none (some g.1) =
              sym h.0 ∙ ap (λ k. get ℕ_discrete k groups) p ∙ own in
            absurd (cc e)
        | no p ↦ if_neg (ℕ_discrete j g.0) p _ _ ∙ own
      ])
      (get-own groups h.1),
)

contains-standing :
    (m : ℕ) (groups : Dict ℕ Sums) (sums : Sums)
    → get ℕ_discrete m groups ≡ some sums
    → contains ℕ_discrete m (map (λ x. x.merchant_id) (map standing groups)) ≡ true
unfolding get contains standing
contains-standing m [] sums h = ground (arith, h)
contains-standing m ((j, t) ∷ groups) sums h = ground (arith, h, contains-standing m groups sums)

module _ (s : Settings) (merchants : List ℕ) {db : Database}
    (r : Reach s (empty_database merchants) db)
    (valid : All (λ e. IsMoment (bucket_ts e)) db.raw_events) (p : Period) (h : IsMonth p) where
  -- the events that the worker has counted
  stored : List RawEvent
  stored = filter (marked db.processed_rollup_events s.worker_id) db.raw_events

  confirmed : ℕ → ℕ
  confirmed m = volume p m stored + volume_on (period_end p.year p.month) m stored

  groups : Dict ℕ Sums
  groups =
      group_sums ℕ_discrete (λ k. k.merchant_id)
        (filter (confirmed_in (month_start p.year p.month) (period_end p.year p.month))
          db.rollup_day)

  group-confirmed : (m : ℕ) → volume_of_sums (get ℕ_discrete m groups) ≡ confirmed m
  unfolding groups confirmed counted_weight stored rollup_of
  group-confirmed m =
      let start = month_start p.year p.month in
      let end = period_end p.year p.month in
      ap volume_of_sums (get-group_sums ℕ_discrete (λ k. k.merchant_id) m _)
      ∙ volume_of_sums-sums_of start end m _
      ∙ volume_of-rows_at start end m db.rollup_day
      ∙ Reach-IsMeasured amount (is_confirmed_in start end m) day s merchants r
      ∙ weight-volume p h m stored (filter-All _ _ db.raw_events valid)

  All-groups :
      (gs : Dict ℕ Sums)
      → All (λ g. g.1.volume_cents ≡ confirmed g.0) gs
      → All (λ x. (x.volume_cents == confirmed x.merchant_id) ≡ true) (map standing gs)
  unfolding standing
  All-groups [] a = tt
  All-groups (g ∷ gs) a = (ground (arith, a.0), All-groups gs a.1)

  standings-confirmed :
      All
        (λ x. (x.volume_cents == confirmed x.merchant_id) ≡ true)
        (standings (month_start p.year p.month) (period_end p.year p.month) db)
  unfolding standings groups volume_of_sums
  standings-confirmed = All-groups groups (
      All-map groups (λ g own. sym (ap volume_of_sums own) ∙ group-confirmed g.0)
        (get-own groups (group_sums-HasDistinctKeys ℕ_discrete (λ k. k.merchant_id) _)))

  -- a row of the fallback has the volume of the month, and that of the first day of the next one
  pub month_rows-confirmed :
      (n : ℕ)
      → All
          (λ x. x.volume_cents ≡ confirmed_by (counted_events s db) p x.merchant_id)
          (month_rows p n db)
  unfolding confirmed confirmed_by counted_events stored
  month_rows-confirmed n =
      let rows = month_rows p n db in
      let (left_out, perm, sorted, above, full) =
        query_leaderboard_from_db-top (month_start p.year p.month) (period_end p.year p.month) n
          db in
      let all =
        All-perm (λ x. x.volume_cents == confirmed x.merchant_id) perm standings-confirmed in
      All-map rows (λ x e. ground (arith, e)) (All-append_inv _ rows left_out all).0

  -- every standing has that volume, and a merchant that has none stands nowhere
  pub standings-volume :
      All
        (λ x. (x.volume_cents == confirmed_by (counted_events s db) p x.merchant_id) ≡ true)
        (standings (month_start p.year p.month) (period_end p.year p.month) db)
  unfolding confirmed confirmed_by counted_events stored
  standings-volume = standings-confirmed

  pub standings-known :
      (m : ℕ)
      → (contains ℕ_discrete m (
            map
              (λ x. x.merchant_id)
              (standings (month_start p.year p.month) (period_end p.year p.month) db))
          ≡ true)
        ⊎ (confirmed_by (counted_events s db) p m ≡ 0)
  unfolding confirmed confirmed_by counted_events stored standings groups volume_of_sums
  standings-known m = elim (Option-cases (get ℕ_discrete m groups)) [
    | inl e ↦ inr (sym (group-confirmed m) ∙ ap volume_of_sums e)
    | inr e ↦ inl (contains-standing m groups e.0 e.1)
  ]
