-- ===== src/Board/Answered.antt =====
-- From POST /events to the answer of `get_leaderboard`, if Redis has no set for the period.
use analytics_pipeline.Prelude.{
  ℕ, ◌+◌, ◌≤◌, true, false, List, [], ◌∷◌, All, ◌≡◌, arith, subst, sym,
}
use analytics_pipeline.Result.{ok}
use analytics_pipeline.Settings.{Settings}
use analytics_pipeline.Moment.Calendar.{IsMoment}
use analytics_pipeline.Rollup.Buckets.{bucket_ts}
use analytics_pipeline.Database.{Database, empty_database}
use analytics_pipeline.Query.Leaderboard.{Standing}
use analytics_pipeline.Board.Increments.{Period}
use analytics_pipeline.Board.SortedSets.{SortedSets}
use analytics_pipeline.Board.Serve.{LeaderboardResponse, is_period, rank_rows, get_leaderboard}
use analytics_pipeline.Board.Cold.{month_rows, get_leaderboard-cold}
use analytics_pipeline.Board.Months.{IsMonth}
use analytics_pipeline.Board.Standings.{counted_events, confirmed_by, month_rows-confirmed}
use analytics_pipeline.Worker.Replay.{Reach}

is_period-IsMonth : (p : Period) → is_period p ≡ true → IsMonth p
unfolding is_period
is_period-IsMonth p h = record {
  year_from = ground (arith, h);
  month_from = ground (arith, h);
  month_to = ground (arith, h);
}

rank_rows-All :
    (f : ℕ → ℕ) (rank : ℕ) (rows : List Standing)
    → All (λ x. x.volume_cents ≡ f x.merchant_id) rows
    → All (λ x. x.volume_cents ≡ f x.merchant_id) (rank_rows rank rows)
unfolding rank_rows
rank_rows-All f rank [] h = tt
rank_rows-All f rank (row ∷ rows) h = (h.0, rank_rows-All f (1 + rank) rows h.1)

module _ {State : Type 0} (server : SortedSets State) where
  -- From a new installation on, whatever batches, crashes, offset resets and new events there were, with
  -- events at moments that exist: without a set for a valid period, a leaderboard of `top_n` rows is
  -- answered, and each entry has the confirmed volume of the counted events of its merchant in the
  -- month together with that on the first day of the next month.
  pub Reach-get_leaderboard :
      (s : Settings) (merchants : List ℕ) (p : Period) (top_n : ℕ) (state : State) {db : Database}
      → Reach s (empty_database merchants) db
      → All (λ e. IsMoment (bucket_ts e)) db.raw_events
      → is_period p ≡ true
      → 1 ≤ top_n
      → server.exists p state ≡ false
      → (after : State) × (response : LeaderboardResponse) × (get_leaderboard server s p top_n db
            state
          ≡ ok (after, response))
        × All
            (λ x. x.volume_cents ≡ confirmed_by (counted_events s db) p x.merchant_id)
            response.entries
  Reach-get_leaderboard s merchants p top_n state {db} r valid h n cold =
      let (after, response, answers, entries, scores) =
        get_leaderboard-cold server s p top_n db state h n cold in
      let rows = month_rows-confirmed s merchants r valid p (is_period-IsMonth p h) top_n in
      (
        after,
        response,
        answers,
        subst (All (λ x. x.volume_cents ≡ confirmed_by (counted_events s db) p x.merchant_id))
            (sym entries)
            (rank_rows-All (confirmed_by (counted_events s db) p) 1 (month_rows p top_n db) rows),
      )
