-- ===== src/Tests/Faults.antt =====
-- The demonstration of faults at concrete inputs.
use analytics_pipeline.Prelude.{true, false, String_discrete, if_pos, ◌≢◌, ◌≡◌, refl, arith}
use analytics_pipeline.Result.{ok, err, redis_unavailable}
use analytics_pipeline.Records.{EventIngest}
use analytics_pipeline.Load.Faults.{
  Server, Arrival, IsReady, status_code, post, run_fault_injection, run_fault_injection_passes,
}
use analytics_pipeline.Tests.Ingest.{ingest_program, order, no_counts, empty, noon, empty-IsKeyed}

faults_program : Unit {0}
unfolding ingest_program status_code post run_fault_injection
faults_program = tt

abbrev server : Server
server = record { database = empty; counters = no_counts }

abbrev late_order : EventIngest
late_order = record order { idempotency_key = "order-18" }

abbrev arrival : Arrival
arrival = record { event_id = 1; at = noon; now = noon; redis = ok tt }

abbrev unanswered : Arrival
unanswered = record arrival { redis = err redis_unavailable }

abbrev third : Arrival
third = record arrival { event_id = 2 }

-- the keys are different texts
differ : order.idempotency_key ≢ late_order.idempotency_key
unfolding faults_program
differ p =
    let e : false ≡ true = if_pos (String_discrete "order-17" "order-18") p true false in
    absurd (cc e)

ready : IsReady arrival third order late_order 8 server
unfolding faults_program
ready = record {
  agree = empty-IsKeyed;
  event_unclaimed = refl;
  late_unclaimed = refl;
  keys_differ = differ;
  event_fresh = refl;
  late_fresh = refl;
  ids_differ = omega arith;
  event_fits = omega arith;
  late_fits = omega arith;
  event_known = refl;
  late_known = refl;
  stranger = refl;
  event_answered = refl;
  late_answered = refl;
}

run_fault_injection_passes_example :
    (run_fault_injection arrival unanswered third unanswered order late_order order 8 server).1
    ≡ true
run_fault_injection_passes_example =
    run_fault_injection_passes arrival unanswered third unanswered order late_order order 8 server
      ready

-- without Redis the first assertion fails
first_fails :
    (run_fault_injection unanswered arrival third arrival order late_order order 8 server).1 ≡ false
unfolding faults_program
first_fails = refl
