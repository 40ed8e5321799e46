-- ===== src/Board/Cold.antt =====
-- A cold leaderboard is rebuilt from rollup_day, and a warm one never looks at it.
use mathlib.Core.List.{map-append}
use mathlib.Core.List.Perm
use analytics_pipeline.Prelude.{
  ℕ, ◌≤◌, List, [], ◌∷◌, ◌++◌, true, false, none, some, Dict, get, contains, HasDistinctKeys,
  IsDistinct, IsDistinct-perm, IsDistinct-append_inv, All, ℕ_discrete, map, length, filter, ◌==◌,
  ◌≡◌, refl, arith, inl, inr, Option-cases,
}
use analytics_pipeline.Result.{ok}
use analytics_pipeline.Settings.{Settings}
use analytics_pipeline.Moment.{Datetime}
use analytics_pipeline.Records.{RawEvent}
use analytics_pipeline.Database.{Database}
use analytics_pipeline.Query.Group.{Sums, group_sums-HasDistinctKeys}
use analytics_pipeline.Query.Leaderboard.{
  Standing, standing, standings, confirmed_in, month_start, period_end, query_leaderboard_from_db,
  query_leaderboard_from_db-top,
}
use analytics_pipeline.Board.Increments.{Period, period_increments, or_zero, volume}
use analytics_pipeline.Board.SortedSets.{SortedSets}
use analytics_pipeline.Board.Update.{update_leaderboard, update_leaderboard-score}
use analytics_pipeline.Board.Serve.{
  LeaderboardResponse, rollup_day, is_period, rank_rows, rebuild_rows, get_leaderboard,
  leaderboard_rebuild-All,
}

get-merchants :
    (m : ℕ) (groups : Dict ℕ Sums)
    → get ℕ_discrete m groups ≡ none
    → contains ℕ_discrete m (map (λ r. r.merchant_id) (map standing groups)) ≡ false
unfolding get contains standing
get-merchants m [] h = refl
get-merchants m ((k, s) ∷ groups) h = ground (arith, get-merchants m groups)

groups-IsDistinct :
    (groups : Dict ℕ Sums)
    → HasDistinctKeys ℕ_discrete groups
    → IsDistinct ℕ_discrete (map (λ r. r.merchant_id) (map standing groups))
unfolding standing
groups-IsDistinct [] h = tt
groups-IsDistinct ((k, s) ∷ groups) h = (get-merchants k groups h.0, groups-IsDistinct groups h.1)

query_leaderboard_from_db-IsDistinct :
    (start end : Datetime) (n : ℕ) (db : Database)
    → IsDistinct ℕ_discrete (map (λ r. r.merchant_id) (query_leaderboard_from_db start end n db))
unfolding standings
query_leaderboard_from_db-IsDistinct start end n db =
    let top = query_leaderboard_from_db-top start end n db in
    let all = groups-IsDistinct _ (
      group_sums-HasDistinctKeys ℕ_discrete (λ k. k.merchant_id)
        (filter (confirmed_in start end) db.rollup_day)) in
    let perm = Perm.map (λ (r : Standing). r.merchant_id) top.1 in
    let apart = IsDistinct-perm ℕ_discrete perm all in
    let rows = query_leaderboard_from_db start end n db in
    let parts : IsDistinct ℕ_discrete
        (map (λ r. r.merchant_id) rows ++ map (λ r. r.merchant_id) top.0) =
      rw (← map-append) apart in
    (IsDistinct-append_inv ℕ_discrete (map (λ r. r.merchant_id) rows)
      (map (λ r. r.merchant_id) top.0) parts).0

-- the standings that the period's query returns
abbrev pub month_rows : Period → ℕ → Database → List Standing
month_rows period n db =
    query_leaderboard_from_db (month_start period.year period.month)
      (period_end period.year period.month) n db

module _ {State : Type 0} (server : SortedSets State) (settings : Settings) where
  -- Without a set for the period, a leaderboard of `top_n` rows is answered from rollup_day, and the
  -- set that is left behind has the volume of each of its rows as the score.
  pub get_leaderboard-cold :
      (period : Period) (top_n : ℕ) (db : Database) (s : State)
      → is_period period ≡ true
      → 1 ≤ top_n
      → server.exists period s ≡ false
      → (after : State) × (response : LeaderboardResponse) × (get_leaderboard server settings period
            top_n db s
          ≡ ok (after, response))
        × (response.entries ≡ rank_rows 1 (month_rows period top_n db))
        × All
            (λ r. server.zscore period r.merchant_id after ≡ some r.volume_cents)
            (month_rows period top_n db)
  unfolding get_leaderboard
  get_leaderboard-cold period top_n db s valid n cold =
      let counted = server.incr "metrics:leaderboard_rebuilds" s in
      let distinct =
        query_leaderboard_from_db-IsDistinct (month_start period.year period.month)
          (period_end period.year period.month) top_n db in
      let given : (top_n == 0) ≡ false = ground (arith, n) in
      (
        rebuild_rows server settings period (month_rows period top_n db) counted,
        record {
          period = period;
          period_start = month_start period.year period.month;
          period_end = period_end period.year period.month;
          entries = rank_rows 1 (month_rows period top_n db);
          source = rollup_day;
        },
        rw (valid, cold, given) refl,
        refl,
        leaderboard_rebuild-All server settings period (month_rows period top_n db) counted
            distinct,
      )

  -- Once the worker has added a positive confirmed volume of a merchant in a period, Redis answering,
  -- the answer for the period is the same for any two databases, whether or not Redis had a set for
  -- it before.
  pub get_leaderboard-warm :
      (period : Period) (top_n : ℕ) (db db' : Database) (events : List RawEvent) (m : ℕ) (s : State)
      → 1 ≤ volume period m events
      → get_leaderboard server settings period top_n db
          (update_leaderboard server (length (period_increments events)) events s)
        ≡ get_leaderboard server settings period top_n db'
            (update_leaderboard server (length (period_increments events)) events s)
  unfolding get_leaderboard or_zero
  get_leaderboard-warm period top_n db db' events m s positive =
      let after = update_leaderboard server (length (period_increments events)) events s in
      let grown = (update_leaderboard-score server 0 events s period m).1 in
      elim (Option-cases (server.zscore period m after)) [
        | inl e ↦ ground (arith, grown, e)
        | inr e ↦ rw (server.exists-zscore period m e.0 after e.1) refl
      ]
