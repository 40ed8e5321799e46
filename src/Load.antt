-- ===== src/Load.antt =====
-- scripts/load_simulator.py: the events that `LoadSimulator` sends, and its counts. What `random`,
-- `uuid4`, the clock and the server answer in one round is an argument.
pub mod Faults
use analytics_pipeline.Prelude.{
  ℕ, ◌+◌, ◌-◌, ◌*◌, ◌≤◌, min, max, String, Bool, false, List, [], ◌∷◌, ◌++◌, Option, none, some,
  length, length-append, drop, ltb, ◌==◌, ◌||◌, if◌then◌else◌, All, ◌≡◌, refl, arith,
}
use analytics_pipeline.Records.{EventType}

-- what one round draws
pub record Draw : Type 0 where
  pub is_late : Bool
  -- random.random() < 0.02, and the index that `random.choice` takes
  pub repeats : Bool
  pub choice : ℕ
  pub new_key : String
  pub event_type : EventType
  pub merchant : ℕ
  -- int(random.lognormvariate(...))
  pub base : ℕ
  -- random.randint(120, 480), by how much it exceeds 120
  pub delay : ℕ
  -- in microseconds
  pub now : ℕ
  -- the status, if the request does not raise
  pub response : Option ℕ

pub record SimulatedEvent : Type 0 where
  pub event_type : EventType
  pub merchant_id : ℕ
  pub amount_cents : ℕ
  pub idempotency_key : String
  pub client_timestamp : ℕ

-- `random_amount`
unfoldable pub random_amount : ℕ → ℕ
random_amount base = max 100 (min base 500000)

-- random.randint(120, 480)
unfoldable pub late_seconds : ℕ → ℕ
late_seconds delay = 120 + min delay 360

-- `make_event`
unfoldable pub make_event : Draw → Bool → String → SimulatedEvent
make_event d late key = record {
  event_type = d.event_type;
  merchant_id = d.merchant;
  amount_cents = random_amount d.base;
  idempotency_key = key;
  client_timestamp = if late then d.now - late_seconds d.delay * 1000000 else d.now;
}

pub record LoadSimulator : Type 0 where
  pub sent : ℕ
  pub errors : ℕ
  pub duplicates_sent : ℕ
  pub recent_keys : List String

abbrev pub new_simulator : LoadSimulator
new_simulator = record { sent = 0; errors = 0; duplicates_sent = 0; recent_keys = [] }

-- an element of a list that has one
unfoldable pub element : ℕ → String → List String → String
element i x [] = x
element i x (y ∷ ys) = let rest = element (i - 1) y ys in if i == 0 then x else rest

-- the key to repeat, if there is one
unfoldable pub duplicate_key : Draw → List String → Option String
duplicate_key d [] = none
duplicate_key d (k ∷ keys) = if d.repeats then some (element d.choice k keys) else none

unfoldable pub event_of : Draw → Option String → SimulatedEvent
event_of d none = make_event d d.is_late d.new_key
event_of d (some key) = make_event d false key

-- append, and pop(0) beyond a hundred
unfoldable pub remember : String → List String → List String
remember key keys =
    let longer = keys ++ key ∷ [] in if ltb 100 (length longer) then drop 1 longer else longer

unfoldable pub count_response : Option ℕ → LoadSimulator → LoadSimulator
count_response none s = record s { errors = s.errors + 1 }
count_response (some status) s =
    if status == 200 || status == 202
    then record s { sent = s.sent + 1 }
    else record s { sent = s.sent + 1; errors = s.errors + 1 }

unfoldable pub count_duplicate : Option String → LoadSimulator → LoadSimulator
count_duplicate none s = s
count_duplicate (some key) s = record s { duplicates_sent = s.duplicates_sent + 1 }

-- `_send_event`, and the event
unfoldable pub send_event : Draw → LoadSimulator → LoadSimulator × SimulatedEvent
send_event d s =
    let key = duplicate_key d s.recent_keys in
    let event = event_of d key in
    let counted = count_duplicate key s in
    (
      count_response d.response
          (record counted { recent_keys = remember event.idempotency_key s.recent_keys }),
      event,
    )

-- the loop of `run`
unfoldable pub run : List Draw → LoadSimulator → LoadSimulator × List SimulatedEvent
run [] s = (s, [])
run (d ∷ ds) s =
    let (s', event) = send_event d s in let (s'', events) = run ds s' in (s'', event ∷ events)

-- what the API takes for an amount, and what the script means to send
abbrev pub IsPlausible : SimulatedEvent → Type 0
IsPlausible e = (100 ≤ e.amount_cents) × (e.amount_cents ≤ 500000)

event_of-IsPlausible : (d : Draw) (key : Option String) → IsPlausible (event_of d key)
unfolding event_of make_event random_amount
event_of-IsPlausible d none = (omega arith, omega arith)
event_of-IsPlausible d (some key) = (omega arith, omega arith)

length-drop_one : (xs : List String) → length (drop 1 xs) ≡ length xs - 1
length-drop_one [] = refl
length-drop_one (x ∷ xs) = omega arith

length-remember :
    (key : String) (keys : List String) → length keys ≤ 100 → length (remember key keys) ≤ 100
unfolding remember
length-remember key keys h =
    ground (arith, h, length-append keys (key ∷ []), length-drop_one (keys ++ key ∷ []))

count_response-counts :
    (o : Option ℕ) (s : LoadSimulator)
    → ((count_response o s).sent ≤ s.sent + 1)
      × ((count_response o s).errors ≤ s.errors + 1)
      × (s.sent + s.errors + 1 ≤ (count_response o s).sent + (count_response o s).errors)
      × ((count_response o s).duplicates_sent ≡ s.duplicates_sent)
      × ((count_response o s).recent_keys ≡ s.recent_keys)
unfolding count_response
count_response-counts none s = (omega arith, omega arith, omega arith, refl, refl)
count_response-counts (some status) s =
    (ground arith, ground arith, ground arith, ground arith, ground arith)

-- one round
module _ (d : Draw) (s : LoadSimulator) where
  count_duplicate-counts :
      (o : Option String)
      → ((count_duplicate o s).sent ≡ s.sent)
        × ((count_duplicate o s).errors ≡ s.errors)
        × ((count_duplicate o s).duplicates_sent ≤ s.duplicates_sent + 1)
  unfolding count_duplicate
  count_duplicate-counts none = (refl, refl, omega arith)
  count_duplicate-counts (some key) = (refl, refl, omega arith)

  send_event_counts :
      length s.recent_keys ≤ 100
      → (length (send_event d s).0.recent_keys ≤ 100)
        × ((send_event d s).0.sent ≤ s.sent + 1)
        × ((send_event d s).0.errors ≤ s.errors + 1)
        × (s.sent + s.errors + 1 ≤ (send_event d s).0.sent + (send_event d s).0.errors)
        × ((send_event d s).0.duplicates_sent ≤ s.duplicates_sent + 1)
  unfolding send_event
  send_event_counts h =
      let key = duplicate_key d s.recent_keys in
      let keys = remember (event_of d key).idempotency_key s.recent_keys in
      let counted = count_duplicate-counts key in
      let answered =
        count_response-counts d.response (record (count_duplicate key s) { recent_keys = keys }) in
      let kept = length-remember (event_of d key).idempotency_key s.recent_keys h in
      (
        ground (arith, answered.4, kept),
        omega (arith, answered.0, counted.0),
        omega (arith, answered.1, counted.1),
        omega (arith, answered.2, counted.0, counted.1),
        omega (arith, answered.3, counted.2),
      )

  send_event-IsPlausible : IsPlausible (send_event d s).1
  unfolding send_event
  send_event-IsPlausible = event_of-IsPlausible d (duplicate_key d s.recent_keys)

-- From a simulator with at most a hundred recent keys: there are at most a hundred after any rounds,
-- a round counts at most one event sent, one error and one duplicate and at least one of the first
-- two, and every amount is from 100 to 500000 cents.
pub run_lem :
    (ds : List Draw) (s : LoadSimulator)
    → length s.recent_keys ≤ 100
    → (length (run ds s).0.recent_keys ≤ 100)
      × ((run ds s).0.sent ≤ s.sent + length ds)
      × ((run ds s).0.errors ≤ s.errors + length ds)
      × (s.sent + s.errors + length ds ≤ (run ds s).0.sent + (run ds s).0.errors)
      × ((run ds s).0.duplicates_sent ≤ s.duplicates_sent + length ds)
      × All IsPlausible (run ds s).1
unfolding run
run_lem [] s h = (h, omega arith, omega arith, omega arith, omega arith, tt)
run_lem (d ∷ ds) s h =
    let one = send_event_counts d s h in
    let rest = run_lem ds (send_event d s).0 one.0 in
    (
      rest.0,
      omega (arith, rest.1, one.1),
      omega (arith, rest.2, one.2),
      omega (arith, rest.3, one.3),
      omega (arith, rest.4, one.4),
      (send_event-IsPlausible d s, rest.5),
    )
