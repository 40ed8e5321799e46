-- ===== src/Board/Agreement.antt =====
-- The two sources of the leaderboard, sorted sets that the worker keeps and rows of rollup_day, beside
-- each other after a run of the worker.
use analytics_pipeline.Prelude.{
  ℕ, zero, suc, String, ◌+◌, ◌≤◌, true, false, List, All, All-map, ◌≡◌, refl, sym, ap, subst, ◌∙◌,
}
use analytics_pipeline.Result.{ok}
use analytics_pipeline.Settings.{Settings}
use analytics_pipeline.Moment.{Datetime}
use analytics_pipeline.Moment.Calendar.{IsMoment}
use analytics_pipeline.Rollup.Buckets.{bucket_ts}
use analytics_pipeline.Database.{Database, empty_database}
use analytics_pipeline.Query.Leaderboard.{period_end}
use analytics_pipeline.Board.Increments.{Period, or_zero}
use analytics_pipeline.Board.SortedSets.{SortedSets}
use analytics_pipeline.Board.Serve.{LeaderboardResponse, is_period, get_leaderboard}
use analytics_pipeline.Board.Standings.{counted_events, confirmed_by, volume_on}
use analytics_pipeline.Board.Answered.{Reach-get_leaderboard}
use analytics_pipeline.Redis.Strings.{Strings}
use analytics_pipeline.Redis.Keys.{heartbeat_key}
use analytics_pipeline.Worker.Batch.{fetch}
use analytics_pipeline.Worker.Exact.{IsExact, empty-IsExact}
use analytics_pipeline.Worker.Replay.{Reach, next, batch, Reach-IsExact, batch-IsExact}
use analytics_pipeline.Worker.Idempotent.{committed-batch, raw_events-after_fetched}
use analytics_pipeline.Worker.Cursor.{run_batches}
use analytics_pipeline.Worker.Cycle.{Worker, Turn, process_loop}
use analytics_pipeline.Worker.Loop.{begun, process_loop-database}
use analytics_pipeline.Worker.Volume.{counted}
use analytics_pipeline.Worker.Answered.{process_loop-answered}

module _ (s : Settings) where
  Reach-run_batches :
      {start : Database} (n : ℕ) {db : Database}
      → Reach s start db
      → Reach s start (run_batches n s db)
  unfolding run_batches
  Reach-run_batches zero r = r
  Reach-run_batches (suc n) {db} r = Reach-run_batches n (next r (batch db))

  raw_events-run_batches :
      (n : ℕ) (db : Database)
      → IsExact s.worker_id db
      → (run_batches n s db).raw_events ≡ db.raw_events
  unfolding run_batches
  raw_events-run_batches zero db e = refl
  raw_events-run_batches (suc n) db e =
      raw_events-run_batches n _ (batch-IsExact s db e)
      ∙ ap (λ (d : Database). d.raw_events) (committed-batch s db e.distinct)
      ∙ raw_events-after_fetched s.worker_id db (fetch s db)

module _ {State : Type 0} (sets : SortedSets State) (strings : Strings State)
    (isoformat : Datetime → String) (settings : Settings)
    (beat : (worker_id value : String) (seconds : ℕ) (p : Period) (m : ℕ) (s : State)
      → sets.zscore p m (strings.set (heartbeat_key worker_id) value seconds s) ≡ sets.zscore p m s)
    (p : Period) where
  -- Take any tables that batches, crashes, offset resets and new events at moments that exist have made, and
  -- scores that are the confirmed volume of the events counted. After any rounds of a running worker
  -- in which Redis answers to every period of each batch, a leaderboard of a valid period with at
  -- least one row, answered for a Redis that has no set for it, has entries whose volume is the score
  -- that the worker left, together with the confirmed volume on the first day of the next month.
  pub process_loop-get_leaderboard :
      (merchants : List ℕ) (top_n : ℕ) (turns : List Turn) (w : Worker State) (lost : State)
      → w.running ≡ true
      → Reach settings (empty_database merchants) w.database
      → All (λ e. IsMoment (bucket_ts e)) w.database.raw_events
      → All (λ t. settings.worker_batch_size ≤ t.answered) turns
      → ((m : ℕ) → or_zero (sets.zscore p m w.redis) ≡ counted settings.worker_id p m w.database)
      → is_period p ≡ true
      → 1 ≤ top_n
      → sets.exists p lost ≡ false
      → let done = process_loop sets strings isoformat settings turns w in
        (after : State) × (response : LeaderboardResponse) × (get_leaderboard sets settings p top_n
            done.database lost
          ≡ ok (after, response))
        × All
            (λ x.
              x.volume_cents
              ≡ or_zero (sets.zscore p x.merchant_id done.redis)
                + volume_on
                    (period_end p.year p.month)
                    x.merchant_id
                    (counted_events settings done.database))
            response.entries
  unfolding confirmed_by counted counted_events
  process_loop-get_leaderboard merchants top_n turns w lost runs r valid answered scores h n cold =
      let done = process_loop sets strings isoformat settings turns w in
      let n' = begun turns in
      let exact = Reach-IsExact settings (empty-IsExact settings.worker_id merchants) r in
      let tables = process_loop-database sets strings isoformat settings turns w runs in
      let reached : Reach settings (empty_database merchants) done.database =
        subst (Reach settings (empty_database merchants)) (sym tables)
          (Reach-run_batches settings n' r) in
      let raw : done.database.raw_events ≡ w.database.raw_events =
        ap (λ (d : Database). d.raw_events) tables
        ∙ raw_events-run_batches settings n' w.database exact in
      let kept : (m : ℕ)
          → or_zero (sets.zscore p m done.redis) ≡ counted settings.worker_id p m done.database =
        λ m.
          process_loop-answered sets strings isoformat settings beat p m turns w exact.distinct
            answered (scores m) in
      let (after, response, answers, entries) =
        Reach-get_leaderboard sets settings merchants p top_n lost reached
          (subst (All (λ e. IsMoment (bucket_ts e))) (sym raw) valid) h n cold in
      let on_next = λ (m : ℕ).
        volume_on (period_end p.year p.month) m (counted_events settings done.database) in
      (
        after,
        response,
        answers,
        All-map response.entries
            (λ x e. e ∙ ap (λ v. v + on_next x.merchant_id) (sym (kept x.merchant_id))) entries,
      )
