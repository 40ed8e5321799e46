-- ===== src/Tests/App.antt =====
-- The start and the end of the process, and the load simulator, at concrete inputs.
use analytics_pipeline.Prelude.{ℕ, List, [], ◌∷◌, ◌++◌, true, false, Bool, some, none, ◌≡◌, refl}
use analytics_pipeline.Records.{payment_confirmed}
use analytics_pipeline.App.Slots.{Process, new_process, Tracing}
use analytics_pipeline.App.Lifespan.{Startup, lifespan, engines_built, lifespan_lem}
use analytics_pipeline.App.Middleware.{
  response_start, response_body, with_request_id, note, send_with_headers, send_all,
}
use analytics_pipeline.Load.{
  Draw, new_simulator, run, send_event, event_of, make_event, duplicate_key, element, remember,
  count_response, count_duplicate, random_amount, late_seconds,
}

abbrev startup : Startup
startup = record {
  engine = 1;
  factory_of_engine = 2;
  client = 3;
  tracing = Tracing.installed 4 5;
  database_answers = true;
  redis_answers = true;
  skip_migrations = false;
  migrates = true;
}

-- a factory that a test has put into the slot
abbrev injected : Process
injected = record new_process { factory = some 9 }

lifespan_lem_example :
    ((lifespan 100 startup injected []).factory ≡ injected.factory)
    × ((lifespan 100 startup injected []).disposed ≡ [] ++ engines_built injected.factory 1)
    × ((lifespan 100 startup injected []).redis ≡ none)
    × ((lifespan 100 startup injected []).closed ≡ [] ++ 3 ∷ [])
    × ((lifespan 100 startup injected []).tracer_provider ≡ none)
lifespan_lem_example = lifespan_lem 100 startup injected [] refl refl refl

-- the id goes into the first message alone, and one line is logged
passed :
    send_all "id"
      (response_start 202 [] ∷ response_body "{" true ∷ response_body "}" false ∷ [])
      (record { status_code = 0; sent = []; logged = [] })
    ≡ record {
      status_code = 202;
      sent =
          response_start 202 (("x-request-id", "id") ∷ [])
          ∷ response_body "{" true
          ∷ response_body "}" false
          ∷ [];
      logged = 202 ∷ [];
    }
unfolding send_all send_with_headers note with_request_id
passed = refl

abbrev draw : Bool → ℕ → Draw
draw repeats status = record {
  is_late = true;
  repeats = repeats;
  choice = 0;
  new_key = "k";
  event_type = payment_confirmed;
  merchant = 7;
  base = 12;
  delay = 60;
  now = 1000000000;
  response = some status;
}

abbrev rounds : List Draw
rounds = draw true 202 ∷ draw true 500 ∷ []

load_program : Unit {0}
unfolding run send_event event_of make_event duplicate_key element remember count_response
    count_duplicate random_amount late_seconds
load_program = tt

-- the first round has no key to repeat; the second has, and fails
counts :
    (run rounds new_simulator).0
    ≡ record { sent = 2; errors = 1; duplicates_sent = 1; recent_keys = "k" ∷ "k" ∷ [] }
unfolding load_program
counts = refl
