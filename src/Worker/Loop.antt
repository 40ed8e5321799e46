-- ===== src/Worker/Loop.antt =====
-- What the rounds of `_process_loop` do to the tables, and when the loop ends.
use analytics_pipeline.Prelude.{
  ℕ, zero, suc, String, ◌≤◌, Bool, true, false, List, [], ◌∷◌, ◌++◌, length, get, if◌then◌else◌,
  ◌≡◌, refl, sym, ap, ◌∙◌, arith, Bool-cases, inl, inr,
}
use analytics_pipeline.Result.{Result, ok, err}
use analytics_pipeline.Settings.{Settings}
use analytics_pipeline.Moment.{Datetime}
use analytics_pipeline.Records.{RawEvent, RollupKey, RollupKey_discrete, RollupGranularity}
use analytics_pipeline.Database.{Database, rollup_of}
use analytics_pipeline.Board.SortedSets.{SortedSets}
use analytics_pipeline.Redis.Strings.{Strings}
use analytics_pipeline.Worker.Batch.{Batch, process_batch, committed}
use analytics_pipeline.Worker.Exact.{IsExact}
use analytics_pipeline.Worker.Totals.{total}
use analytics_pipeline.Worker.Cursor.{run_batches}
use analytics_pipeline.Worker.Live.Caught.{IsCaughtUp}
use analytics_pipeline.Worker.Live.{run_batches-total}
use analytics_pipeline.Worker.Cycle.{
  Worker, Turn, handle_shutdown, after_commit, measured, after_transaction,
  process_batch_and_report, wait_if_idle, signal, round, process_loop,
}

-- the rounds that a running worker begins: up to the first in which a signal arrives
unfoldable pub begun : List Turn → ℕ
begun [] = 0
begun (t ∷ turns) = let rest = begun turns in if t.signalled then 1 else suc rest

-- a signal arrives in some round
unfoldable pub is_signalled : List Turn → Bool
is_signalled [] = false
is_signalled (t ∷ turns) = let rest = is_signalled turns in if t.signalled then true else rest

module _ {State : Type 0} (sets : SortedSets State) (strings : Strings State)
    (isoformat : Datetime → String) (settings : Settings) where
  after_commit-database :
      (t : Turn) (b : Batch) (events : List RawEvent) (w : Worker State)
      → ((after_commit sets strings isoformat settings t b events w).0.database ≡ w.database)
        × ((after_commit sets strings isoformat settings t b events w).0.running ≡ w.running)
  unfolding after_commit measured
  after_commit-database t b [] w = (refl, refl)
  after_commit-database t b (e ∷ es) w = elim (Bool-cases t.beats) [
    | inl ends ↦ rw ends (refl, refl)
    | inr goes ↦ rw goes (refl, refl)
  ]

  after_transaction-database :
      (t : Turn) (r : Result (Database × Batch)) (w : Worker State)
      → ((after_transaction sets strings isoformat settings t r w).0.database
          ≡ committed w.database r)
        × ((after_transaction sets strings isoformat settings t r w).0.running ≡ w.running)
  unfolding after_transaction committed
  after_transaction-database t (ok (db, b)) w =
      after_commit-database t b b.events (record w { database = db })
  after_transaction-database t (err e) w = (refl, refl)

  wait_if_idle-database :
      (w : Worker State) (n : Result ℕ)
      → ((wait_if_idle (w, n)).database ≡ w.database) × ((wait_if_idle (w, n)).running ≡ w.running)
  unfolding wait_if_idle
  wait_if_idle-database w (ok zero) = (refl, refl)
  wait_if_idle-database w (ok (suc n)) = (refl, refl)
  wait_if_idle-database w (err e) = (refl, refl)

  signal-database : (b : Bool) (w : Worker State) → (signal b w).database ≡ w.database
  unfolding signal handle_shutdown
  signal-database true w = refl
  signal-database false w = refl

  signal-running :
      (b : Bool) (w : Worker State) → (signal b w).running ≡ (if b then false else w.running)
  unfolding signal handle_shutdown
  signal-running true w = refl
  signal-running false w = refl

  -- A round is a batch as far as the tables go, and a signal ends the run.
  module _ (t : Turn) (w : Worker State) where
    pub round-database :
        (round sets strings isoformat settings t w).database
        ≡ committed w.database (process_batch settings w.database)
    unfolding round process_batch_and_report
    round-database =
        let done = process_batch_and_report sets strings isoformat settings t w in
        (wait_if_idle-database (signal t.signalled done.0) done.1).0
        ∙ signal-database t.signalled done.0
        ∙ (after_transaction-database t (process_batch settings w.database) w).0

    round-running :
        (round sets strings isoformat settings t w).running
        ≡ (if t.signalled then false else w.running)
    unfolding round process_batch_and_report
    round-running =
        let done = process_batch_and_report sets strings isoformat settings t w in
        (wait_if_idle-database (signal t.signalled done.0) done.1).1
        ∙ signal-running t.signalled done.0
        ∙ ap (λ r. if t.signalled then false else r)
            (after_transaction-database t (process_batch settings w.database) w).1

  -- a worker that does not run stays as it is
  pub process_loop_stopped :
      (turns : List Turn) (w : Worker State)
      → w.running ≡ false
      → process_loop sets strings isoformat settings turns w ≡ w
  unfolding process_loop
  process_loop_stopped [] w h = refl
  process_loop_stopped (t ∷ turns) w h = rw h refl

  -- a worker that runs makes the round
  pub process_loop_running :
      (t : Turn) (turns : List Turn) (w : Worker State)
      → w.running ≡ true
      → process_loop sets strings isoformat settings (t ∷ turns) w
        ≡ process_loop sets strings isoformat settings turns
            (round sets strings isoformat settings t w)
  unfolding process_loop
  process_loop_running t turns w h =
      let w' = round sets strings isoformat settings t w in
      ap (λ b. if b then process_loop sets strings isoformat settings turns w' else w) h

  -- and no other one, if a signal arrives in it
  process_loop_last :
      (t : Turn) (turns : List Turn) (w : Worker State)
      → w.running ≡ true
      → t.signalled ≡ true
      → process_loop sets strings isoformat settings (t ∷ turns) w
        ≡ round sets strings isoformat settings t w
  process_loop_last t turns w h ends =
      process_loop_running t turns w h
      ∙ process_loop_stopped turns _
          (round-running t w ∙ ap (λ b. if b then false else w.running) ends)

  -- Whatever Redis answers, the tables after the rounds of a running worker are those of as many
  -- batches as it begins.
  pub process_loop-database :
      (turns : List Turn) (w : Worker State)
      → w.running ≡ true
      → (process_loop sets strings isoformat settings turns w).database
        ≡ run_batches (begun turns) settings w.database
  unfolding process_loop begun run_batches
  process_loop-database [] w h = refl
  process_loop-database (t ∷ turns) w h =
      let n = λ (b : Bool). if b then 1 else suc (begun turns) in
      let batches = λ (m : ℕ). run_batches m settings w.database in
      elim (Bool-cases t.signalled) [
        | inl ends ↦
            ap (λ v. v.database) (process_loop_last t turns w h ends)
            ∙ round-database t w
            ∙ sym (ap (λ b. batches (n b)) ends)
        | inr goes ↦
            ap (λ v. v.database) (process_loop_running t turns w h)
            ∙ process_loop-database turns _
                (round-running t w ∙ ap (λ b. if b then false else w.running) goes ∙ h)
            ∙ ap (run_batches (begun turns) settings) (round-database t w)
            ∙ sym (ap (λ b. batches (n b)) goes)
      ]

  -- A signal ends the loop: after the round in which it arrives the worker does not run, and no
  -- later round changes anything.
  pub process_loop-signalled :
      (turns later : List Turn) (w : Worker State)
      → is_signalled turns ≡ true
      → ((process_loop sets strings isoformat settings turns w).running ≡ false)
        × (process_loop sets strings isoformat settings (turns ++ later) w
            ≡ process_loop sets strings isoformat settings turns w)
  unfolding is_signalled
  process_loop-signalled [] later w h = ground (arith, h)
  process_loop-signalled (t ∷ turns) later w h = elim (Bool-cases w.running) [
    | inr stopped ↦
        let same = process_loop_stopped (t ∷ turns) w stopped in
        (
          ap (λ v. v.running) same ∙ stopped,
          process_loop_stopped (t ∷ (turns ++ later)) w stopped ∙ sym same,
        )
    | inl runs ↦ elim (Bool-cases t.signalled) [
      | inl ends ↦
          let same = process_loop_last t turns w runs ends in
          (
            ap (λ v. v.running) same
                ∙ round-running t w
                ∙ ap (λ b. if b then false else w.running) ends,
            process_loop_last t (turns ++ later) w runs ends ∙ sym same,
          )
      | inr goes ↦
          let same = process_loop_running t turns w runs in
          let rest = process_loop-signalled turns later _ (ground (arith, h, goes)) in
          (
            ap (λ v. v.running) same ∙ rest.0,
            process_loop_running t (turns ++ later) w runs ∙ rest.1 ∙ sym same,
          )
    ]
  ]

  -- If the tables are exact, ids and moments of creation are distinct, the cursor has passed no event
  -- without a marker and a batch reads at least one event, then a running worker that begins as many
  -- rounds as there are events leaves in every row the summary of all of them, whatever Redis answers.
  pub process_loop-total :
      (turns : List Turn) (w : Worker State) (g : RollupGranularity) (k : RollupKey)
      → w.running ≡ true
      → IsExact settings.worker_id w.database
      → IsCaughtUp settings.worker_id w.database
      → 1 ≤ settings.worker_batch_size
      → length w.database.raw_events ≤ begun turns
      → get RollupKey_discrete k
          (rollup_of g (process_loop sets strings isoformat settings turns w).database)
        ≡ total g k w.database.raw_events
  process_loop-total turns w g k runs exact caught size enough =
      ap (λ db. get RollupKey_discrete k (rollup_of g db)) (process_loop-database turns w runs)
      ∙ run_batches-total (begun turns) settings w.database g k exact caught size enough
