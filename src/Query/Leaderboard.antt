-- ===== src/Query/Leaderboard.antt =====
-- `query_leaderboard_from_db` of app/repositories/rollup_repository.py, and the month that
-- `get_leaderboard` of app/services/query_service.py asks it for.
use mathlib.Core.List.{Perm}
use mathlib.Core.List.Perm
use analytics_pipeline.Prelude.{
  ◌⊎◌, length, take-or-drop, ◌++◌, drop, take-append-drop, sort_by-perm, IsSorted-append_inv, ℕ,
  ◌+◌, List, [], Bool, true, false, filter, leb, ◌&&◌, if◌then◌else◌, ite, ◌==◌, sort_by, take, map,
  String_discrete, ℕ_discrete, ◌≡◌, arith, IsSorted, sort_by-IsSorted, All,
}
use analytics_pipeline.Moment.{Datetime, at_most}
use analytics_pipeline.Database.{Database}
use analytics_pipeline.Query.Group.{Sums, Row, group_sums}

pub record Standing : Type 0 where
  pub merchant_id : ℕ
  pub volume_cents : ℕ
  pub transaction_count : ℕ

-- WHERE bucket BETWEEN :start AND :end AND event_type = 'PAYMENT_CONFIRMED'
unfoldable pub confirmed_in : Datetime → Datetime → Row → Bool
confirmed_in start end (k, row) =
    ite (String_discrete k.event_type "PAYMENT_CONFIRMED")
      (at_most start k.bucket && at_most k.bucket end) false

-- ORDER BY volume_cents DESC
unfoldable pub by_volume : Standing → Standing → Bool
by_volume a b = leb b.volume_cents a.volume_cents

unfoldable pub standing : ℕ × Sums → Standing
standing (merchant, s) = record {
  merchant_id = merchant;
  volume_cents = s.volume_cents;
  transaction_count = s.count;
}

-- the merchants with a confirmed payment in the period, each with its totals
unfoldable pub standings : Datetime → Datetime → Database → List Standing
standings start end db =
    map standing
      (group_sums ℕ_discrete (λ k. k.merchant_id) (filter (confirmed_in start end) db.rollup_day))

unfoldable pub query_leaderboard_from_db : Datetime → Datetime → ℕ → Database → List Standing
query_leaderboard_from_db start end top_n db =
    take top_n (sort_by by_volume (standings start end db))

-- the first moment of a month
unfoldable pub month_start : ℕ → ℕ → Datetime
month_start year month = record {
  year = year;
  month = month;
  day = 1;
  hour = 0;
  minute = 0;
  second = 0;
  microsecond = 0;
}

-- `period_end` of `get_leaderboard`
unfoldable pub period_end : ℕ → ℕ → Datetime
period_end year month =
    if month == 12 then month_start (1 + year) 1 else month_start year (1 + month)

by_volume-IsSorted :
    (start end : Datetime) (db : Database)
    → IsSorted by_volume (sort_by by_volume (standings start end db))
unfolding by_volume
by_volume-IsSorted start end db =
    sort_by-IsSorted by_volume (λ a b h. ground (arith, h)) (λ a b c h k. ground (arith, h, k))
      (standings start end db)

-- The leaderboard is a part of the standings in descending order of volume, nobody outside it has a
-- greater volume than anybody in it, and it is of the length asked for or has them all.
pub query_leaderboard_from_db-top :
    (start end : Datetime) (top_n : ℕ) (db : Database)
    → (left_out : List Standing) × Perm
        (standings start end db)
        (query_leaderboard_from_db start end top_n db ++ left_out)
      × IsSorted by_volume (query_leaderboard_from_db start end top_n db)
      × All
          (λ a. All (λ b. by_volume a b ≡ true) left_out)
          (query_leaderboard_from_db start end top_n db)
      × ((length (query_leaderboard_from_db start end top_n db) ≡ top_n) ⊎ (left_out ≡ []))
unfolding query_leaderboard_from_db
query_leaderboard_from_db-top start end top_n db =
    let sorted = sort_by by_volume (standings start end db) in
    let parts : (IsSorted by_volume (take top_n sorted))
        × All (λ a. All (λ b. by_volume a b ≡ true) (drop top_n sorted)) (take top_n sorted) =
      IsSorted-append_inv by_volume (take top_n sorted) (drop top_n sorted)
        (rw (take-append-drop top_n sorted) (by_volume-IsSorted start end db)) in
    (
      drop top_n sorted,
      rw (take-append-drop top_n sorted)
          (Perm.symm (sort_by-perm by_volume (standings start end db))),
      parts.0,
      parts.1,
      take-or-drop top_n sorted,
    )
