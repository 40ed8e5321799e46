-- ===== src/Tests/Listen.antt =====
-- The listener at concrete inputs.
use analytics_pipeline.Prelude.{true, false, [], ◌∷◌, All, ◌≡◌, ◌≢◌, refl}
use analytics_pipeline.Worker.Listen.{
  Listener, Second, Attempt, completed, raised, cancelled, acquire, add_listener, remove_listener,
  release, returned, call, handler, second, stay, then_stay, then_listen, listen, swallow,
  release_after, clean_up, pause, unless_cancelled, listen_notify_loop, held_from, AreReturned,
  IsCleanedUp, listen_notify_loop-AreReturned,
}
use analytics_pipeline.Worker.Cycle.{signal, handle_shutdown}
use analytics_pipeline.Tests.Redis.{Store}
use analytics_pipeline.Tests.Loop.{idle}

listen_program : Unit {0}
unfolding signal handle_shutdown returned call handler second stay then_stay then_listen listen
    swallow release_after clean_up pause unless_cancelled listen_notify_loop held_from
listen_program = tt

abbrev waiting : Listener Store
waiting = record { worker = idle; calls = [] }

-- the pool gives no connection, the connection cannot listen, and all is well until a signal
abbrev refused : Attempt
refused = record {
  connection = 0;
  acquires = raised;
  listens = completed;
  removes = completed;
  releases = completed;
  seconds = [];
  signalled = false;
  interrupted = false;
}

abbrev deaf : Attempt
deaf = record refused { connection = 1; acquires = completed; listens = raised; removes = raised }

abbrev quiet : Second
quiet = record { notifies = false; signalled = false }

abbrev stopped : Attempt
stopped = record refused {
  connection = 2;
  acquires = completed;
  seconds = quiet ∷ record { notifies = true; signalled = true } ∷ [];
}

six_calls :
    (listen_notify_loop (refused ∷ deaf ∷ stopped ∷ deaf ∷ []) waiting).calls
    ≡ acquire 1 ∷ release 1 ∷ acquire 2 ∷ add_listener 2 ∷ remove_listener 2 ∷ release 2 ∷ []
unfolding listen_program
six_calls = refl

-- a cancellation that arrives while the listener is removed is no Exception: the connection is kept
interrupted_clean_up :
    (listen_notify_loop (record stopped { removes = cancelled } ∷ deaf ∷ []) waiting).calls
    ≡ acquire 2 ∷ add_listener 2 ∷ []
unfolding listen_program
interrupted_clean_up = refl

raised-cancelled : raised ≢ cancelled
raised-cancelled p = cc p

completed-cancelled : completed ≢ cancelled
completed-cancelled p = cc p

ends : All IsCleanedUp (refused ∷ deaf ∷ stopped ∷ deaf ∷ [])
ends = (
  record { not_cancelled = completed-cancelled; released = refl },
  (
    record { not_cancelled = raised-cancelled; released = refl },
    (
      record { not_cancelled = completed-cancelled; released = refl },
      (record { not_cancelled = raised-cancelled; released = refl }, tt),
    ),
  ),
)

listen_notify_loop-AreReturned_example :
    AreReturned (listen_notify_loop (refused ∷ deaf ∷ stopped ∷ deaf ∷ []) waiting).calls
unfolding listen_program
listen_notify_loop-AreReturned_example =
    listen_notify_loop-AreReturned (refused ∷ deaf ∷ stopped ∷ deaf ∷ []) waiting ends refl
