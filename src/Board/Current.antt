-- ===== src/Board/Current.antt =====
-- GET /leaderboard without a period: the month of the moment of the request.
use analytics_pipeline.Prelude.{ℕ, ◌<◌, ◌≤◌, true, none, some, ◌≡◌, refl, arith, ap, sym, ◌∙◌}
use analytics_pipeline.Settings.{Settings}
use analytics_pipeline.Moment.{Datetime, at_most, before}
use analytics_pipeline.Moment.Calendar.{IsMoment}
use analytics_pipeline.Database.{Database}
use analytics_pipeline.Query.Leaderboard.{month_start, period_end}
use analytics_pipeline.Board.Months.{month_start_lem}
use analytics_pipeline.Board.Increments.{period_key}
use analytics_pipeline.Board.SortedSets.{SortedSets}
use analytics_pipeline.Board.PeriodKey.{parse_period, period_text, parse_period-period_text}
use analytics_pipeline.Board.Serve.{is_period}
use analytics_pipeline.Board.Route.{
  IsAnswered, get_leaderboard_route, get_leaderboard_route-read, IsAnswered-get_leaderboard,
  accepts, or_current, or_current-pattern,
}

module _ {State : Type 0} (server : SortedSets State) (settings : Settings) where
  -- At a moment that exists, in a year from 1000 to 9998, with a `top_n` from 1 to 100, a request that
  -- names no period is
  -- answered as one that names the key of the moment, for the period of this key, and the moment is
  -- not before the start of this period and before its end.
  pub get_leaderboard_route-current :
      (top_n : ℕ) (now : Datetime) (db : Database) (s : State)
      → IsMoment now
      → 1000 ≤ now.year
      → now.year < 9999
      → 1 ≤ top_n
      → top_n ≤ 100
      → (get_leaderboard_route server settings none top_n now db s
          ≡ get_leaderboard_route server settings (some (period_text now)) top_n now db s)
        × IsAnswered (period_key now) (get_leaderboard_route server settings none top_n now db s)
        × (at_most (month_start now.year now.month) now ≡ true)
        × (before now (period_end now.year now.month) ≡ true)
  unfolding accepts or_current is_period period_key
  get_leaderboard_route-current top_n now db s v y y' n n' =
      let (accepted, parsed) =
        parse_period-period_text now y (omega arith) v.month_from v.month_to in
      let left_out =
        get_leaderboard_route-read server settings none top_n now db s (period_key now) refl n n'
          parsed in
      let named =
        get_leaderboard_route-read server settings (some (period_text now)) top_n now db s
          (period_key now) accepted n n'
          (ap parse_period (or_current-pattern (period_text now) now accepted) ∙ parsed) in
      let (begun, not_ended) = month_start_lem now v in
      let valid : is_period (period_key now) ≡ true = ground (arith, v.month_from, v.month_to) in
      (
        left_out ∙ sym named,
        rw (left_out)
            (IsAnswered-get_leaderboard server settings (period_key now) top_n db s valid),
        begun,
        not_ended,
      )
