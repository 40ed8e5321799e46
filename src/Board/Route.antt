-- ===== src/Board/Route.antt =====
-- GET /leaderboard of app/api/routes/leaderboard.py, and the head of `get_leaderboard` of
-- app/services/query_service.py, which reads the text of the period.
use analytics_pipeline.Prelude.{
  ℕ, ap, ◌∙◌, ◌≤◌, ◌⊎◌, inl, inr, Bool-cases, [], ◌∷◌, Bool, true, false, Option, none, some, leb,
  ◌&&◌, if◌then◌else◌, ◌≡◌, refl, arith,
}
use analytics_pipeline.Result.{Result, Error, ok, err, ◌>>=◌, value_error}
use analytics_pipeline.Settings.{Settings}
use analytics_pipeline.Moment.{Datetime}
use analytics_pipeline.Database.{Database}
use analytics_pipeline.Query.Leaderboard.{month_start, period_end}
use analytics_pipeline.Board.Increments.{Period}
use analytics_pipeline.Board.SortedSets.{SortedSets}
use analytics_pipeline.Board.PeriodKey.{Text, period_text, pattern, matches, parse_period}
use analytics_pipeline.Board.Accepted.{padded, parse_period-pattern}
use analytics_pipeline.Board.Serve.{LeaderboardResponse, is_period, get_leaderboard}

pub data LeaderboardReply : Type 0 where
  leaderboard : LeaderboardResponse → LeaderboardReply
  -- 422: a query parameter that its declaration refuses
  unprocessable : LeaderboardReply
  -- any other exception
  raised : Error → LeaderboardReply

-- period or _period_key_for_datetime(now)
unfoldable pub or_current : Option Text → Datetime → Text
or_current none now = period_text now
or_current (some []) now = period_text now
or_current (some (c ∷ cs)) now = c ∷ cs

pub or_current-pattern :
    (text : Text) (now : Datetime) → pattern text ≡ true → or_current (some text) now ≡ text
unfolding or_current pattern matches
or_current-pattern [] now h = ground (arith, h)
or_current-pattern (c ∷ cs) now h = refl

-- pattern=..., of a parameter that may be left out
unfoldable pub accepts : Option Text → Bool
accepts none = true
accepts (some text) = pattern text

unfoldable pub leaderboard_reply :
    {State : Type 0} → State → Result (State × LeaderboardResponse) → State × LeaderboardReply
leaderboard_reply s (ok (after, response)) = (after, leaderboard response)
leaderboard_reply s (err e) = (s, raised e)

-- the answer is that for the period
pub data IsAnswered {State : Type 0} (p : Period) : State × LeaderboardReply → Type 0 where
  answered :
      (s : State) (response : LeaderboardResponse)
      → response.period ≡ p
      → response.period_start ≡ month_start p.year p.month
      → response.period_end ≡ period_end p.year p.month
      → IsAnswered p (s, leaderboard response)

module _ {State : Type 0} (server : SortedSets State) (settings : Settings) where
  -- ge=1, le=100 of top_n
  unfoldable pub get_leaderboard_route :
      Option Text → ℕ → Datetime → Database → State → State × LeaderboardReply
  get_leaderboard_route period top_n now db s =
      if accepts period && leb 1 top_n && leb top_n 100
      then leaderboard_reply s (
          parse_period (or_current period now)
          >>= (λ p. get_leaderboard server settings p top_n db s))
      else (s, unprocessable)

  pub IsAnswered-get_leaderboard :
      (p : Period) (top_n : ℕ) (db : Database) (s : State)
      → is_period p ≡ true
      → IsAnswered p (leaderboard_reply s (get_leaderboard server settings p top_n db s))
  unfolding get_leaderboard leaderboard_reply
  IsAnswered-get_leaderboard p top_n db s h = elim (Bool-cases (server.exists p s)) [
    | inl warm ↦ rw (h, warm) (answered _ _ refl refl refl)
    | inr cold ↦ rw (h, cold) (answered _ _ refl refl refl)
  ]

  pub get_leaderboard_route-read :
      (period : Option Text) (top_n : ℕ) (now : Datetime) (db : Database) (s : State) (p : Period)
      → accepts period ≡ true
      → 1 ≤ top_n
      → top_n ≤ 100
      → parse_period (or_current period now) ≡ ok p
      → get_leaderboard_route period top_n now db s
        ≡ leaderboard_reply s (get_leaderboard server settings p top_n db s)
  unfolding get_leaderboard_route
  get_leaderboard_route-read period top_n now db s p h n n' parsed =
      let bounds : (leb 1 top_n && leb top_n 100) ≡ true = ground (arith, n, n') in
      rw (h, bounds, parsed) refl

  leaderboard_reply-invalid :
      (p : Period) (top_n : ℕ) (db : Database) (s : State)
      → is_period p ≡ false
      → leaderboard_reply s (get_leaderboard server settings p top_n db s) ≡ (s, raised value_error)
  unfolding get_leaderboard leaderboard_reply
  leaderboard_reply-invalid p top_n db s h = rw (h) refl

  -- A `top_n` from 1 to 100 and a period of the right form, which is the text of some year and month:
  -- the request is answered for them if they are a period, and else raises ValueError and leaves Redis
  -- as it was.
  pub get_leaderboard_route-named :
      (text : Text) (top_n : ℕ) (now : Datetime) (db : Database) (s : State)
      → pattern text ≡ true
      → 1 ≤ top_n
      → top_n ≤ 100
      → (p : Period) × (padded p ≡ text)
        × ((is_period p ≡ true) × IsAnswered p (get_leaderboard_route (some text) top_n now db s)
            ⊎ (is_period p ≡ false)
              × (get_leaderboard_route (some text) top_n now db s ≡ (s, raised value_error)))
  unfolding accepts
  get_leaderboard_route-named text top_n now db s h n n' =
      let (p, parsed, is_text) = parse_period-pattern text h in
      let read =
        get_leaderboard_route-read (some text) top_n now db s p h n n'
          (ap parse_period (or_current-pattern text now h) ∙ parsed) in
      (
        p,
        is_text,
        elim (Bool-cases (is_period p)) [
          | inl valid ↦ inl (valid, rw (read) (IsAnswered-get_leaderboard p top_n db s valid))
          | inr invalid ↦ inr (invalid, read ∙ leaderboard_reply-invalid p top_n db s invalid)
        ],
      )
