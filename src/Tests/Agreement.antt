-- ===== src/Tests/Agreement.antt =====
-- The leaderboard from the events on, at concrete inputs.
use mathlib.Core.List.Perm
use analytics_pipeline.Prelude.{
  ◌+◌, [], ◌∷◌, All, contains, IsSorted, leb, length, map, true, ℕ_discrete, ◌≤◌, ◌⊎◌, ◌≡◌, refl,
  arith,
}
use analytics_pipeline.Result.{ok}
use analytics_pipeline.Records.{RawEvent}
use analytics_pipeline.Rollup.Buckets.{bucket_of}
use analytics_pipeline.Query.Leaderboard.{month_start, period_end}
use analytics_pipeline.Board.Increments.{Period_discrete, period_key, or_zero, volume}
use analytics_pipeline.Board.Serve.{LeaderboardResponse, get_leaderboard, is_period}
use analytics_pipeline.Board.Standings.{counted_events, confirmed_by, volume_on}
use analytics_pipeline.Board.Top.{Reach-month_rows}
use analytics_pipeline.Board.Cold.{month_rows}
use analytics_pipeline.Board.Answered.{Reach-get_leaderboard}
use analytics_pipeline.Board.Agreement.{process_loop-get_leaderboard}
use analytics_pipeline.Worker.Replay.{Reach, here, next, store}
use analytics_pipeline.Worker.Cycle.{Worker, process_loop}
use analytics_pipeline.Worker.Volume.{counted}
use analytics_pipeline.Worker.Answered.{process_loop-answered}
use analytics_pipeline.Tests.Data.{first, small_batches, payment}
use analytics_pipeline.Tests.Board.{may, none_yet, server, is_present}
use analytics_pipeline.Tests.Redis.{Store, sorted_sets, texts}
use analytics_pipeline.Tests.Worker.{
  worker_program, start, received, replayed, history, spread-IsCaughtUp,
}
use analytics_pipeline.Tests.Counted.{replayed-valid}
use analytics_pipeline.Tests.Loop.{iso, idle, missed, fine}

agreement_program : Unit {0}
unfolding worker_program is_period or_zero volume volume_on counted counted_events confirmed_by
    bucket_of period_end Period_discrete period_key month_start is_present
agreement_program = tt

-- a payment in the first hour of June counts for May, and for June
abbrev june : RawEvent
june =
    payment 9 70 (record {
      year = 2026;
      month = 6;
      day = 1;
      hour = 0;
      minute = 30;
      second = 0;
      microsecond = 0;
    })

june_in_may : confirmed_by (first ∷ june ∷ []) may 7 ≡ 1070
unfolding agreement_program
june_in_may = refl

Reach-get_leaderboard_example :
    (after : _) × (response : LeaderboardResponse) × (get_leaderboard server small_batches may 5
        replayed none_yet
      ≡ ok (after, response))
    × All
        (λ x.
          x.volume_cents ≡ confirmed_by (counted_events small_batches replayed) may x.merchant_id)
        response.entries
unfolding agreement_program
Reach-get_leaderboard_example =
    Reach-get_leaderboard server small_batches (7 ∷ []) may 5 none_yet history replayed-valid refl
      (omega arith) refl

process_loop-answered_example :
    or_zero (
      sorted_sets.zscore may 7
        (process_loop sorted_sets texts iso small_batches (missed ∷ fine ∷ []) idle).redis)
    ≡ counted "rollup-worker-1" may 7
        (process_loop sorted_sets texts iso small_batches (missed ∷ fine ∷ []) idle).database
unfolding agreement_program
process_loop-answered_example =
    process_loop-answered sorted_sets texts iso small_batches
      (λ worker_id value seconds p m s. refl) may 7 (missed ∷ fine ∷ []) idle
      spread-IsCaughtUp.distinct (omega arith, (omega arith, tt)) refl

abbrev one_event : Worker Store
one_event = record idle { database = received }

received-Reach : Reach small_batches start received
unfolding contains
received-Reach = next here (store start first (first ∷ []) refl (Perm.refl (first ∷ [])))

process_loop-get_leaderboard_example :
    let done = process_loop sorted_sets texts iso small_batches (missed ∷ fine ∷ []) one_event in
    (after : Store) × (response : LeaderboardResponse) × (get_leaderboard sorted_sets small_batches
        may 5 done.database one_event.redis
      ≡ ok (after, response))
    × All
        (λ x.
          x.volume_cents
          ≡ or_zero (sorted_sets.zscore may x.merchant_id done.redis)
            + volume_on
                (period_end 2026 5)
                x.merchant_id
                (counted_events small_batches done.database))
        response.entries
unfolding agreement_program
process_loop-get_leaderboard_example =
    process_loop-get_leaderboard sorted_sets texts iso small_batches
      (λ worker_id value seconds p m s. refl) may (7 ∷ []) 5 (missed ∷ fine ∷ []) one_event
      one_event.redis refl received-Reach replayed-valid (omega arith, (omega arith, tt))
      (λ m. refl) refl (omega arith) refl

Reach-month_rows_example :
    let rows = month_rows may 5 replayed in
    let volume = confirmed_by (counted_events small_batches replayed) may in
    IsSorted (λ a b. leb b.volume_cents a.volume_cents) rows
    × (length rows ≤ 5)
    × All (λ x. x.volume_cents ≡ volume x.merchant_id) rows
    × ((contains ℕ_discrete 8 (map (λ x. x.merchant_id) rows) ≡ true)
        ⊎ All (λ x. volume 8 ≤ x.volume_cents) rows × ((length rows ≡ 5) ⊎ (volume 8 ≡ 0)))
Reach-month_rows_example =
    Reach-month_rows small_batches (7 ∷ []) may 5 8 history replayed-valid
      (record { year_from = omega arith; month_from = omega arith; month_to = omega arith })
