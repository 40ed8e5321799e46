-- ===== src/Worker/Scores.antt =====
-- `_update_leaderboard` after the commit, round after round: no score runs ahead of the markers.
use analytics_pipeline.Prelude.{
  ℕ, zero, suc, String, ◌+◌, ◌≤◌, Bool, true, false, List, [], ◌∷◌, IsDistinct, ℕ_discrete, ◌≡◌,
  refl, sym, ap, subst, ◌∙◌, arith, Bool-cases, inl, inr,
}
use analytics_pipeline.Result.{Result, ok, err}
use analytics_pipeline.Settings.{Settings}
use analytics_pipeline.Moment.{Datetime}
use analytics_pipeline.Records.{RawEvent}
use analytics_pipeline.Board.Increments.{Period, or_zero, volume}
use analytics_pipeline.Board.SortedSets.{SortedSets}
use analytics_pipeline.Board.Update.{update_leaderboard-score}
use analytics_pipeline.Redis.Strings.{Strings}
use analytics_pipeline.Redis.Keys.{heartbeat_key}
use analytics_pipeline.Worker.Batch.{
  Batch, ids, get_consumer_offset, last_event_id_of, process_batch, fetch, committed,
}
use analytics_pipeline.Worker.Fetch.Split.{not_fetched, get_events_after-perm}
use analytics_pipeline.Worker.Commit.{fresh}
use analytics_pipeline.Worker.Replay.{after_fetched, process_batch-ok}
use analytics_pipeline.Worker.Idempotent.{committed-batch, raw_events-after_fetched}
use analytics_pipeline.Worker.Loop.{round-database, process_loop_stopped, process_loop_running}
use analytics_pipeline.Worker.Volume.{counted, after_fetched-counted}
use analytics_pipeline.Worker.Cycle.{
  Worker, Turn, handle_shutdown, set_worker_heartbeat, update_new, after_commit, measured,
  after_transaction, process_batch_and_report, wait_if_idle, signal, round, process_loop,
}

module _ {State : Type 0} (sets : SortedSets State) (strings : Strings State)
    (isoformat : Datetime → String) (settings : Settings)
    (beat : (worker_id value : String) (seconds : ℕ) (p : Period) (m : ℕ) (s : State)
      → sets.zscore p m (strings.set (heartbeat_key worker_id) value seconds s) ≡ sets.zscore p m s)
    (p : Period) (m : ℕ) where
  -- the merchant's score in the period
  score : State → ℕ
  score s = or_zero (sets.zscore p m s)

  update_new-score :
      (answered : ℕ) (es : List RawEvent) (s : State)
      → score (update_new sets strings isoformat settings answered es s) ≤ score s + volume p m es
  unfolding update_new score
  update_new-score answered [] s = omega arith
  update_new-score answered (e ∷ es) s = (update_leaderboard-score sets answered (e ∷ es) s p m).0

  after_commit-score :
      (t : Turn) (b : Batch) (events : List RawEvent) (w : Worker State)
      → score (after_commit sets strings isoformat settings t b events w).0.redis
        ≤ score w.redis + volume p m b.new_events
  unfolding after_commit measured set_worker_heartbeat score
  after_commit-score t b [] w = omega arith
  after_commit-score t b (e ∷ es) w =
      let updated = update_new-score t.answered b.new_events w.redis in
      elim (Bool-cases t.beats) [
        | inl beats ↦ rw (beats, beat w.worker_id (isoformat t.now) 60 p m _) updated
        | inr fails ↦ rw fails updated
      ]

  signal-redis : (b : Bool) (w : Worker State) → (signal b w).redis ≡ w.redis
  unfolding signal handle_shutdown
  signal-redis true w = refl
  signal-redis false w = refl

  wait_if_idle-redis : (w : Worker State) (n : Result ℕ) → (wait_if_idle (w, n)).redis ≡ w.redis
  unfolding wait_if_idle
  wait_if_idle-redis w (ok zero) = refl
  wait_if_idle-redis w (ok (suc n)) = refl
  wait_if_idle-redis w (err e) = refl

  -- the score after a round
  pub round-redis :
      (t : Turn) (w : Worker State)
      → (round sets strings isoformat settings t w).redis
        ≡ (process_batch_and_report sets strings isoformat settings t w).0.redis
  unfolding round
  round-redis t w =
      let done = process_batch_and_report sets strings isoformat settings t w in
      wait_if_idle-redis (signal t.signalled done.0) done.1 ∙ signal-redis t.signalled done.0

  round-score :
      (t : Turn) (w : Worker State)
      → IsDistinct ℕ_discrete (ids w.database.raw_events)
      → score (round sets strings isoformat settings t w).redis
          + counted settings.worker_id p m w.database
        ≤ score w.redis
          + counted settings.worker_id p m
              (committed w.database (process_batch settings w.database))
  unfolding process_batch_and_report after_transaction committed
  round-score t w distinct =
      let c = settings.worker_id in
      let db = w.database in
      let events = fetch settings db in
      let b : Batch = record { events = events; new_events = fresh db c events } in
      let last = last_event_id_of (get_consumer_offset db c) in
      let grown =
        after_fetched-counted p m c db events
          (not_fetched db.raw_events last settings.worker_batch_size) distinct
          (unfold fetch in get_events_after-perm db.raw_events last settings.worker_batch_size) in
      rw (round-redis t w, process_batch-ok settings db distinct)
        (ground (
          arith,
          grown,
          after_commit-score t b events (record w { database = after_fetched c db events }),
        ))

  -- If the score of a merchant in a period is at most the confirmed volume of the events counted, it is
  -- so after any rounds of the loop, whatever Redis answers: what Redis is told is counted already.
  pub process_loop-score :
      (turns : List Turn) (w : Worker State)
      → IsDistinct ℕ_discrete (ids w.database.raw_events)
      → or_zero (sets.zscore p m w.redis) ≤ counted settings.worker_id p m w.database
      → or_zero (sets.zscore p m (process_loop sets strings isoformat settings turns w).redis)
        ≤ counted settings.worker_id p m
            (process_loop sets strings isoformat settings turns w).database
  unfolding score
  process_loop-score [] w distinct h = unfold process_loop in h
  process_loop-score (t ∷ turns) w distinct h = elim (Bool-cases w.running) [
    | inr stopped ↦
        subst (λ v. score v.redis ≤ counted settings.worker_id p m v.database)
          (sym (process_loop_stopped sets strings isoformat settings (t ∷ turns) w stopped)) h
    | inl runs ↦
        let w' = round sets strings isoformat settings t w in
        let tables = round-database sets strings isoformat settings t w in
        let batch = committed-batch settings w.database distinct in
        let same =
          ap (λ db. db.raw_events) (tables ∙ batch)
          ∙ raw_events-after_fetched settings.worker_id w.database (fetch settings w.database) in
        let bound : score w'.redis ≤ counted settings.worker_id p m w'.database =
          ground (arith, h, round-score t w distinct, ap (counted settings.worker_id p m) tables) in
        subst (λ v. score v.redis ≤ counted settings.worker_id p m v.database)
          (sym (process_loop_running sets strings isoformat settings t turns w runs))
          (process_loop-score turns w'
            (subst (λ raw. IsDistinct ℕ_discrete (ids raw)) (sym same) distinct) bound)
  ]
