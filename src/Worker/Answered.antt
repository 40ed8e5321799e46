-- ===== src/Worker/Answered.antt =====
-- The loop with a Redis that answers: the scores are the confirmed volume of the events counted.
use analytics_pipeline.Prelude.{
  Option, none, some, ℕ, String, ◌+◌, ◌≤◌, List, [], ◌∷◌, All, IsDistinct, ℕ_discrete, length,
  length-take-le, length-filter-le, filter, ◌≡◌, sym, ap, subst, ◌∙◌, arith, Bool-cases, inl, inr,
}
use analytics_pipeline.Settings.{Settings}
use analytics_pipeline.Moment.{Datetime}
use analytics_pipeline.Records.{RawEvent}
use analytics_pipeline.Database.{Database}
use analytics_pipeline.Board.Increments.{Period, or_zero, volume}
use analytics_pipeline.Board.SortedSets.{SortedSets}
use analytics_pipeline.Board.Update.{update_leaderboard-score, update_leaderboard-answered}
use analytics_pipeline.Redis.Strings.{Strings}
use analytics_pipeline.Redis.Keys.{heartbeat_key}
use analytics_pipeline.Worker.Fetch.{get_events_after}
use analytics_pipeline.Worker.Batch.{
  ids, get_consumer_offset, last_event_id_of, process_batch, fetch, committed,
}
use analytics_pipeline.Worker.Fetch.Split.{not_fetched, get_events_after-perm}
use analytics_pipeline.Worker.Markers.Laws.{unmarked}
use analytics_pipeline.Worker.Commit.{fresh}
use analytics_pipeline.Worker.Replay.{after_fetched, process_batch-ok}
use analytics_pipeline.Worker.Idempotent.{committed-batch, raw_events-after_fetched}
use analytics_pipeline.Worker.Loop.{round-database, process_loop_stopped, process_loop_running}
use analytics_pipeline.Worker.Volume.{counted, after_fetched-counted}
use analytics_pipeline.Worker.Scores.{round-redis}
use analytics_pipeline.Worker.Cycle.{
  Worker, Turn, set_worker_heartbeat, update_new, after_commit, measured, after_transaction,
  process_batch_and_report, round, process_loop,
}

length-get_events_after :
    (raw : List RawEvent) (last : Option ℕ) (limit : ℕ)
    → length (get_events_after raw last limit) ≤ limit
unfolding get_events_after
length-get_events_after raw none limit = length-take-le limit _
length-get_events_after raw (some id) limit = length-take-le limit _

length-fresh :
    (s : Settings) (db : Database)
    → length (fresh db s.worker_id (fetch s db)) ≤ s.worker_batch_size
unfolding fresh fetch
length-fresh s db = omega (
  arith,
  length-get_events_after db.raw_events (last_event_id_of (get_consumer_offset db s.worker_id))
      s.worker_batch_size,
  length-filter-le (λ e. unmarked db.processed_rollup_events s.worker_id e.id) (fetch s db),
)

module _ {State : Type 0} (sets : SortedSets State) (strings : Strings State)
    (isoformat : Datetime → String) (settings : Settings)
    (beat : (worker_id value : String) (seconds : ℕ) (p : Period) (m : ℕ) (s : State)
      → sets.zscore p m (strings.set (heartbeat_key worker_id) value seconds s) ≡ sets.zscore p m s)
    (p : Period) (m : ℕ) where
  score : State → ℕ
  score s = or_zero (sets.zscore p m s)

  update_new-answered :
      (answered : ℕ) (es : List RawEvent) (s : State)
      → length es ≤ answered
      → score (update_new sets strings isoformat settings answered es s) ≡ score s + volume p m es
  unfolding update_new score volume
  update_new-answered answered [] s h = omega arith
  update_new-answered answered (e ∷ es) s h =
      ap score (update_leaderboard-answered sets answered (e ∷ es) s h)
      ∙ (update_leaderboard-score sets answered (e ∷ es) s p m).1

  after_commit-answered :
      (t : Turn) (db : Database) (events : List RawEvent) (w : Worker State)
      → let new = fresh db settings.worker_id events in
        length new ≤ t.answered
        → score
            (after_commit sets strings isoformat settings t
              (record { events = events; new_events = new })
              events
              w).0.redis
          ≡ score w.redis + volume p m new
  unfolding after_commit measured set_worker_heartbeat score
  after_commit-answered t db [] w h = unfold fresh filter volume in omega arith
  after_commit-answered t db (e ∷ es) w h =
      let updated =
        update_new-answered t.answered (fresh db settings.worker_id (e ∷ es)) w.redis h in
      elim (Bool-cases t.beats) [
        | inl beats ↦ rw (beats, beat w.worker_id (isoformat t.now) 60 p m _) updated
        | inr fails ↦ rw fails updated
      ]

  round-answered :
      (t : Turn) (w : Worker State)
      → IsDistinct ℕ_discrete (ids w.database.raw_events)
      → settings.worker_batch_size ≤ t.answered
      → score (round sets strings isoformat settings t w).redis
          + counted settings.worker_id p m w.database
        ≡ score w.redis
          + counted settings.worker_id p m
              (committed w.database (process_batch settings w.database))
  unfolding process_batch_and_report after_transaction committed
  round-answered t w distinct answered =
      let c = settings.worker_id in
      let db = w.database in
      let events = fetch settings db in
      let last = last_event_id_of (get_consumer_offset db c) in
      let grown =
        after_fetched-counted p m c db events
          (not_fetched db.raw_events last settings.worker_batch_size) distinct
          (unfold fetch in get_events_after-perm db.raw_events last settings.worker_batch_size) in
      rw
        (
          round-redis sets strings isoformat settings beat p m t w,
          process_batch-ok settings db distinct,
        )
        (ground (
          arith,
          grown,
          after_commit-answered t db events (record w { database = after_fetched c db events })
              (omega (arith, answered, length-fresh settings db)),
        ))

  -- If Redis answers to every period of each batch, and the score of a merchant in a period is the
  -- confirmed volume of the events counted, it is so after any rounds of the loop.
  pub process_loop-answered :
      (turns : List Turn) (w : Worker State)
      → IsDistinct ℕ_discrete (ids w.database.raw_events)
      → All (λ t. settings.worker_batch_size ≤ t.answered) turns
      → or_zero (sets.zscore p m w.redis) ≡ counted settings.worker_id p m w.database
      → or_zero (sets.zscore p m (process_loop sets strings isoformat settings turns w).redis)
        ≡ counted settings.worker_id p m
            (process_loop sets strings isoformat settings turns w).database
  unfolding score
  process_loop-answered [] w distinct a h = unfold process_loop in h
  process_loop-answered (t ∷ turns) w distinct a h = elim (Bool-cases w.running) [
    | inr stopped ↦
        subst (λ v. score v.redis ≡ counted settings.worker_id p m v.database)
          (sym (process_loop_stopped sets strings isoformat settings (t ∷ turns) w stopped)) h
    | inl runs ↦
        let w' = round sets strings isoformat settings t w in
        let tables = round-database sets strings isoformat settings t w in
        let same =
          ap (λ db. db.raw_events) (tables ∙ committed-batch settings w.database distinct)
          ∙ raw_events-after_fetched settings.worker_id w.database (fetch settings w.database) in
        let kept : score w'.redis ≡ counted settings.worker_id p m w'.database =
          ground (
            arith,
            h,
            round-answered t w distinct a.0,
            ap (counted settings.worker_id p m) tables,
          ) in
        subst (λ v. score v.redis ≡ counted settings.worker_id p m v.database)
          (sym (process_loop_running sets strings isoformat settings t turns w runs))
          (process_loop-answered turns w'
            (subst (λ raw. IsDistinct ℕ_discrete (ids raw)) (sym same) distinct) a.1 kept)
  ]
