-- ===== src/Tests/Period.antt =====
-- GET /leaderboard at concrete inputs.
use analytics_pipeline.Prelude.{[], ◌∷◌, true, false, none, some, ◌≡◌, ◌⊎◌, refl, arith}
use analytics_pipeline.Result.{value_error}
use analytics_pipeline.Settings.{default_settings}
use analytics_pipeline.Moment.{Datetime, at_most, before}
use analytics_pipeline.Moment.Calendar.{IsMoment, days_in_month}
use analytics_pipeline.Query.Leaderboard.{month_start, period_end}
use analytics_pipeline.Board.Increments.{Period, period_key}
use analytics_pipeline.Board.PeriodKey.{
  Text, decimal, period_text, is_digit, matches, pattern, cons_first, split, int_from, int_of,
  unpack, parse_period,
}
use analytics_pipeline.Board.Accepted.{padded}
use analytics_pipeline.Board.Serve.{is_period, get_leaderboard}
use analytics_pipeline.Board.Route.{
  IsAnswered, raised, unprocessable, or_current, accepts, leaderboard_reply, get_leaderboard_route,
  get_leaderboard_route-named,
}
use analytics_pipeline.Board.Current.{get_leaderboard_route-current}
use analytics_pipeline.Tests.Board.{server, none_yet}
use analytics_pipeline.Tests.Query.{db}

period_program : Unit {0}
unfolding decimal period_text is_digit matches pattern cons_first split int_from int_of unpack
    parse_period is_period period_key get_leaderboard or_current accepts leaderboard_reply
    get_leaderboard_route days_in_month
period_program = tt

abbrev noon : Datetime
noon = record {
  year = 2026;
  month = 12;
  day = 31;
  hour = 12;
  minute = 0;
  second = 0;
  microsecond = 0;
}

-- "2026-12", "2026-13" and "2026"
abbrev december : Text
december = b'2' ∷ b'0' ∷ b'2' ∷ b'6' ∷ b'-' ∷ b'1' ∷ b'2' ∷ []

abbrev no_month : Text
no_month = b'2' ∷ b'0' ∷ b'2' ∷ b'6' ∷ b'-' ∷ b'1' ∷ b'3' ∷ []

abbrev a_year : Text
a_year = b'2' ∷ b'0' ∷ b'2' ∷ b'6' ∷ []

key_of_noon : period_text noon ≡ december
unfolding period_program
key_of_noon = refl

-- a period of the right form that is no month is not refused: datetime(2026, 13, 1) raises
thirteenth_month :
    get_leaderboard_route server default_settings (some no_month) 5 noon db none_yet
    ≡ (none_yet, raised value_error)
unfolding period_program
thirteenth_month = refl

not_a_period :
    get_leaderboard_route server default_settings (some a_year) 5 noon db none_yet
    ≡ (none_yet, unprocessable)
unfolding period_program
not_a_period = refl

too_many_rows :
    get_leaderboard_route server default_settings none 101 noon db none_yet
    ≡ (none_yet, unprocessable)
unfolding period_program
too_many_rows = refl

noon-IsMoment : IsMoment noon
unfolding period_program
noon-IsMoment = record {
  year_from = omega arith;
  month_from = omega arith;
  month_to = omega arith;
  day_from = omega arith;
  day_to = omega arith;
  clock = record {
    hour_lt = omega arith;
    minute_lt = omega arith;
    second_lt = omega arith;
    microsecond_lt = omega arith;
  };
}

get_leaderboard_route-current_example :
    (get_leaderboard_route server default_settings none 5 noon db none_yet
      ≡ get_leaderboard_route server default_settings (some (period_text noon)) 5 noon db none_yet)
    × IsAnswered
        (period_key noon)
        (get_leaderboard_route server default_settings none 5 noon db none_yet)
    × (at_most (month_start 2026 12) noon ≡ true)
    × (before noon (period_end 2026 12) ≡ true)
get_leaderboard_route-current_example =
    get_leaderboard_route-current server default_settings 5 noon db none_yet noon-IsMoment
      (omega arith) (omega arith) (omega arith) (omega arith)

get_leaderboard_route-named_example :
    (p : Period) × (padded p ≡ no_month)
    × ((is_period p ≡ true)
          × IsAnswered p
              (get_leaderboard_route server default_settings (some no_month) 5 noon db none_yet)
        ⊎ (is_period p ≡ false)
          × (get_leaderboard_route server default_settings (some no_month) 5 noon db none_yet
              ≡ (none_yet, raised value_error)))
unfolding period_program
get_leaderboard_route-named_example =
    get_leaderboard_route-named server default_settings no_month 5 noon db none_yet refl
      (omega arith) (omega arith)
