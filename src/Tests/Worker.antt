-- ===== src/Tests/Worker.antt =====
-- The worker at concrete inputs.
use mathlib.Core.List.Perm
use analytics_pipeline.Prelude.{
  String, [], ◌∷◌, some, get, contains, filter, IsDistinct, Dict, ℕ_discrete, sort_by, ◌≡◌, refl,
  arith,
}
use analytics_pipeline.Result.{ok}
use analytics_pipeline.Moment.{micros, ordinal, at_most, before}
use analytics_pipeline.Records.{ConsumerOffset, RollupKey_discrete, day}
use analytics_pipeline.Database.{Database, empty_database, rollup_of}
use analytics_pipeline.Worker.Fetch.{
  get_events_after, created_at_of, later_than, by_created_at, by_created_at_id,
}
use analytics_pipeline.Worker.Markers.{Marker_discrete, insert_processed_markers}
use analytics_pipeline.Worker.Batch.{
  ids, get_consumer_offset, upsert_consumer_offset, last_event_id_of, upsert_new_events,
  process_events, process_fetched, fetch, process_batch, committed,
}
use analytics_pipeline.Worker.Commit.{fresh}
use analytics_pipeline.Worker.Exact.{IsExact, marked, empty-IsExact}
use analytics_pipeline.Worker.Replay.{
  Reach, here, next, batch, seek, store, after_fetched, process_batch-ok, Reach-IsExact,
}
use analytics_pipeline.Worker.Idempotent.{rewound, process_batch-rewound, AllMarked}
use analytics_pipeline.Worker.Cursor.{IsBehind, run_batches, run_batches-IsBehind}
use analytics_pipeline.Worker.Totals.{total}
use analytics_pipeline.Worker.Live.Pending.{is_pending}
use analytics_pipeline.Worker.Live.Caught.{is_covered, IsCaughtUp}
use analytics_pipeline.Worker.Live.{run_batches-total}
use analytics_pipeline.Tests.Data.{at, first, second, third, payment, small_batches, stored}
use analytics_pipeline.Tests.Rollup.{program}

unfoldable pub worker_program : Unit {0}
unfolding program get_events_after created_at_of later_than by_created_at by_created_at_id sort_by
    filter contains micros ordinal at_most before Marker_discrete insert_processed_markers
    get_consumer_offset upsert_consumer_offset last_event_id_of upsert_new_events process_events
    process_fetched fetch process_batch committed rollup_of run_batches marked rewound is_pending
    is_covered
worker_program = tt

abbrev three : Database
three = stored (first ∷ second ∷ third ∷ [])

three-IsDistinct : IsDistinct ℕ_discrete (ids three.raw_events)
unfolding worker_program
three-IsDistinct = (refl, (refl, (refl, tt)))

one_batch : Database
one_batch = committed three (process_batch small_batches three)

-- the first batch counts two of the three events
first_batch :
    get RollupKey_discrete
      (record {
        merchant_id = 7;
        bucket = record (at 0 0 0) { microsecond = 0 };
        event_type = "PAYMENT_CONFIRMED";
      })
      one_batch.rollup_day
    ≡ some (record {
      count = 2;
      amount_sum_cents = 1250;
      amount_min_cents = 250;
      amount_max_cents = 1000;
    })
unfolding worker_program one_batch
first_batch = refl

-- and no later batch reads the third, which was created at the same moment as the second
second_batch : fetch small_batches one_batch ≡ []
unfolding worker_program one_batch
second_batch = refl

abbrev pub start : Database
start = empty_database (7 ∷ [])

abbrev pub received : Database
received = record start { raw_events = first ∷ [] }

abbrev pub counted : Database
counted = committed received (process_batch small_batches received)

abbrev pub reset : Database
reset = record counted { consumer_offsets = [] }

abbrev pub replayed : Database
replayed = committed reset (process_batch small_batches reset)

-- an event, a batch, a reset of the offset, and the same batch again
pub history : Reach small_batches start replayed
unfolding contains
history =
    next
      (next
        (next (next here (store start first (first ∷ []) refl (Perm.refl (first ∷ []))))
          (batch received))
        (seek counted []))
      (batch reset)

Reach-IsExact_example : IsExact "rollup-worker-1" replayed
Reach-IsExact_example =
    Reach-IsExact small_batches (empty-IsExact "rollup-worker-1" (7 ∷ [])) history

process_batch-ok_example :
    process_batch small_batches three
    ≡ ok (
      after_fetched "rollup-worker-1" three (fetch small_batches three),
      record {
        events = fetch small_batches three;
        new_events = fresh three "rollup-worker-1" (fetch small_batches three);
      },
    )
process_batch-ok_example = process_batch-ok small_batches three three-IsDistinct

process_batch-rewound_example :
    (offsets : Dict String ConsumerOffset) × (process_batch small_batches
        (rewound small_batches three)
      ≡ ok (
        record (rewound small_batches three) { consumer_offsets = offsets },
        record { events = fetch small_batches three; new_events = [] },
      ))
process_batch-rewound_example = process_batch-rewound small_batches three three-IsDistinct

abbrev done : Database
done = record (stored (first ∷ [])) { processed_rollup_events = ("rollup-worker-1", 1) ∷ [] }

done_marked : AllMarked done.processed_rollup_events "rollup-worker-1" (fetch small_batches done)
unfolding worker_program
done_marked = (refl, tt)

done-IsDistinct : IsDistinct ℕ_discrete (ids done.raw_events)
unfolding worker_program
done-IsDistinct = (refl, tt)

third-IsBehind : IsBehind small_batches third one_batch
unfolding worker_program one_batch
third-IsBehind = record {
  distinct = (refl, (refl, (refl, tt)));
  stored = refl;
  unmarked = refl;
  last_id = 2;
  last_at = second.created_at;
  offset = refl;
  cursor = refl;
  not_later = refl;
}

run_batches-IsBehind_example : IsBehind small_batches third (run_batches 5 small_batches one_batch)
run_batches-IsBehind_example = run_batches-IsBehind 5 small_batches third one_batch third-IsBehind

-- three events at three moments
abbrev pub spread : Database
spread = record (empty_database (7 ∷ [])) {
  raw_events = payment 2 250 (at 14 37 50) ∷ first ∷ payment 3 4000 (at 14 37 51) ∷ [];
}

pub spread-IsExact : IsExact "rollup-worker-1" spread
unfolding worker_program
spread-IsExact = Reach-IsExact small_batches (empty-IsExact "rollup-worker-1" (7 ∷ [])) (
    next
      (next
        (next here (
          store start (payment 3 4000 (at 14 37 51)) (payment 3 4000 (at 14 37 51) ∷ []) refl
            (Perm.refl _)))
        (store _ first (first ∷ payment 3 4000 (at 14 37 51) ∷ []) refl (Perm.refl _)))
      (store _ (payment 2 250 (at 14 37 50)) spread.raw_events refl (Perm.refl _)))

pub spread-IsCaughtUp : IsCaughtUp "rollup-worker-1" spread
unfolding worker_program
spread-IsCaughtUp = record {
  distinct = (refl, (refl, (refl, tt)));
  apart = (refl, (refl, (refl, tt)));
  covered = (refl, (refl, (refl, tt)));
}

run_batches-total_example :
    get RollupKey_discrete
      (record {
        merchant_id = 7;
        bucket = record (at 0 0 0) { microsecond = 0 };
        event_type = "PAYMENT_CONFIRMED";
      })
      (rollup_of day (run_batches 3 small_batches spread))
    ≡ total day
        (record {
          merchant_id = 7;
          bucket = record (at 0 0 0) { microsecond = 0 };
          event_type = "PAYMENT_CONFIRMED";
        })
        spread.raw_events
run_batches-total_example =
    run_batches-total 3 small_batches spread day _ spread-IsExact spread-IsCaughtUp (omega arith)
      (omega arith)
