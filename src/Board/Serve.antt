-- ===== src/Board/Serve.antt =====
-- `get_leaderboard` of app/services/query_service.py, and `leaderboard_rebuild`,
-- `leaderboard_exists` and `leaderboard_top_n` of app/repositories/redis_repository.py.
use analytics_pipeline.Prelude.{
  contains, IsDistinct, All, All-map, ◌∙◌, ℕ, ◌+◌, List, [], ◌∷◌, Bool, false, Option, none, some,
  leb, ◌==◌, ◌&&◌, not, if◌then◌else◌, ℕ_discrete, map, ◌≡◌, refl, arith,
}
use analytics_pipeline.Result.{Result, ok, err, value_error}
use analytics_pipeline.Settings.{Settings}
use analytics_pipeline.Moment.{Datetime}
use analytics_pipeline.Database.{Database}
use analytics_pipeline.Query.Leaderboard.{
  Standing, month_start, period_end, query_leaderboard_from_db,
}
use analytics_pipeline.Board.Increments.{Period}
use analytics_pipeline.Board.SortedSets.{SortedSets}

pub record LeaderboardEntry : Type 0 where
  pub rank : ℕ
  pub merchant_id : ℕ
  pub volume_cents : ℕ
  pub transaction_count : Option ℕ

pub data Source : Type 0 where
  redis rollup_day : Source

pub record LeaderboardResponse : Type 0 where
  pub period : Period
  pub period_start : Datetime
  pub period_end : Datetime
  pub entries : List LeaderboardEntry
  pub source : Source

-- enumerate(...): ranks from `rank` on
unfoldable pub rank_scores : ℕ → List (ℕ × ℕ) → List LeaderboardEntry
rank_scores rank [] = []
rank_scores rank ((merchant, score) ∷ rest) =
    record { rank = rank; merchant_id = merchant; volume_cents = score; transaction_count = none }
    ∷ rank_scores (1 + rank) rest

unfoldable pub rank_rows : ℕ → List Standing → List LeaderboardEntry
rank_rows rank [] = []
rank_rows rank (row ∷ rest) =
    record {
      rank = rank;
      merchant_id = row.merchant_id;
      volume_cents = row.volume_cents;
      transaction_count = some row.transaction_count;
    }
    ∷ rank_rows (1 + rank) rest

-- both ends of the month are dates
unfoldable pub is_period : Period → Bool
is_period p =
    (leb 1 p.month && leb p.month 12)
    && (leb 1 p.year && leb p.year 9999)
    && not (p.year == 9999 && p.month == 12)

module _ {State : Type 0} (server : SortedSets State) (settings : Settings) where
  unfoldable pub zadd_all : Period → List Standing → State → State
  zadd_all period [] s = s
  zadd_all period (row ∷ rows) s =
      zadd_all period rows (server.zadd period row.merchant_id row.volume_cents s)

  abbrev pub leaderboard_exists : Period → State → Bool
  leaderboard_exists period s = server.exists period s

  abbrev pub leaderboard_top_n : Period → ℕ → State → List (ℕ × ℕ)
  leaderboard_top_n period top_n s = server.zrevrange period top_n s

  abbrev pub leaderboard_delete : Period → State → State
  leaderboard_delete period s = server.delete period s

  -- `leaderboard_rebuild`
  unfoldable pub leaderboard_rebuild : Period → List Standing → State → State
  leaderboard_rebuild period rows s =
      server.expire period settings.leaderboard_rebuild_ttl
        (zadd_all period rows (server.delete period s))

  -- if rows: leaderboard_rebuild(...)
  unfoldable pub rebuild_rows : Period → List Standing → State → State
  rebuild_rows period [] s = s
  rebuild_rows period (row ∷ rows) s = leaderboard_rebuild period (row ∷ rows) s

  -- `get_leaderboard`, behind the parsing of the period
  unfoldable pub get_leaderboard :
      Period → ℕ → Database → State → Result (State × LeaderboardResponse)
  get_leaderboard period top_n db s =
      let n = if top_n == 0 then settings.leaderboard_top_n else top_n in
      let start = month_start period.year period.month in
      let end = period_end period.year period.month in
      let rows = query_leaderboard_from_db start end n db in
      if is_period period
      then ok (
          if leaderboard_exists period s
          then (
            s,
            record {
              period = period;
              period_start = start;
              period_end = end;
              entries = rank_scores 1 (leaderboard_top_n period n s);
              source = redis;
            },
          )
          else (
            rebuild_rows period rows (server.incr "metrics:leaderboard_rebuilds" s),
            record {
              period = period;
              period_start = start;
              period_end = end;
              entries = rank_rows 1 rows;
              source = rollup_day;
            },
          ))
      else err value_error

  zadd_all-other :
      (period : Period) (m : ℕ) (rows : List Standing) (s : State)
      → contains ℕ_discrete m (map (λ r. r.merchant_id) rows) ≡ false
      → server.zscore period m (zadd_all period rows s) ≡ server.zscore period m s
  unfolding zadd_all contains
  zadd_all-other period m [] s h = refl
  zadd_all-other period m (row ∷ rows) s h = ground (
    arith,
    zadd_all-other period m rows (server.zadd period row.merchant_id row.volume_cents s),
    server.zscore-zadd period period row.merchant_id row.volume_cents m s,
  )

  -- the rows of distinct merchants are the members of the set
  zadd_all-All :
      (period : Period) (rows : List Standing) (s : State)
      → IsDistinct ℕ_discrete (map (λ r. r.merchant_id) rows)
      → All
          (λ r. server.zscore period r.merchant_id (zadd_all period rows s) ≡ some r.volume_cents)
          rows
  unfolding zadd_all
  zadd_all-All period [] s h = tt
  zadd_all-All period (row ∷ rows) s h =
      let s' = server.zadd period row.merchant_id row.volume_cents s in
      (
        ground (
          arith,
          zadd_all-other period row.merchant_id rows s' h.0,
          server.zscore-zadd period period row.merchant_id row.volume_cents row.merchant_id s,
        ),
        zadd_all-All period rows s' h.1,
      )

  pub leaderboard_rebuild-All :
      (period : Period) (rows : List Standing) (s : State)
      → IsDistinct ℕ_discrete (map (λ r. r.merchant_id) rows)
      → All
          (λ r.
            server.zscore period r.merchant_id (rebuild_rows period rows s) ≡ some r.volume_cents)
          rows
  unfolding rebuild_rows leaderboard_rebuild
  leaderboard_rebuild-All period [] s h = tt
  leaderboard_rebuild-All period (row ∷ rows) s h =
      let deleted = server.delete period s in
      All-map (row ∷ rows)
        (λ r e.
          server.zscore-expire period period settings.leaderboard_rebuild_ttl r.merchant_id
            (zadd_all period (row ∷ rows) deleted)
          ∙ e)
        (zadd_all-All period (row ∷ rows) deleted h)
