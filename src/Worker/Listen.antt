-- ===== src/Worker/Listen.antt =====
-- `_listen_notify_loop` of app/workers/rollup_worker.py: the LISTEN connection, from the pool and back.
-- What the pool and the connection do is an argument, call by call.
use analytics_pipeline.Prelude.{
  ℕ, Bool, true, false, List, [], ◌∷◌, ◌++◌, Option, none, some, if◌then◌else◌, ite, All,
  ℕ_discrete, ◌≡◌, ◌≢◌, refl, arith,
}
use analytics_pipeline.Worker.Cycle.{Worker, signal}

-- how an awaited call, or a block, ends: it returns, an Exception is raised, or the task is cancelled,
-- which is no Exception
pub data Outcome : Type 0 where
  completed raised cancelled : Outcome

pub data Call : Type 0 where
  acquire add_listener remove_listener release : ℕ → Call

pub record Listener (State : Type 0) : Type 0 where
  pub worker : Worker State
  -- the calls of the pool and of a connection that returned
  pub calls : List Call

-- a second of the inner loop: whether a notification and whether a signal arrives
pub record Second : Type 0 where
  pub notifies : Bool
  pub signalled : Bool

-- a round of the outer loop
pub record Attempt : Type 0 where
  -- the connection that the pool gives if `acquire` returns
  pub connection : ℕ
  pub acquires : Outcome
  pub listens : Outcome
  pub removes : Outcome
  pub releases : Outcome
  -- the seconds of the inner loop; if it still runs behind the last, its task is cancelled there
  pub seconds : List Second
  -- whether a signal arrives in the five seconds before the next round, and whether these are cancelled
  pub signalled : Bool
  pub interrupted : Bool

module _ {State : Type 0} where
  unfoldable pub returned : Call → Listener State → Listener State
  returned c l = record l { calls = l.calls ++ c ∷ [] }

  -- a call that does not return has done nothing
  unfoldable pub call : Call → Outcome → Listener State → Listener State × Outcome
  call c completed l = (returned c l, completed)
  call c raised l = (l, raised)
  call c cancelled l = (l, cancelled)

  -- `_handler`
  unfoldable pub handler : Bool → Worker State → Worker State
  handler true w = record w { notified = true }
  handler false w = w

  unfoldable pub second : Second → Listener State → Listener State
  second s l = record l { worker = signal s.signalled (handler s.notifies l.worker) }

  -- while self._running: await asyncio.sleep(1)
  unfoldable pub stay : List Second → Listener State → Listener State × Outcome
  stay [] l = (l, if l.worker.running then cancelled else completed)
  stay (s ∷ ss) l =
      let rest = stay ss (second s l) in if l.worker.running then rest else (l, completed)

  -- what follows a call that returns
  unfoldable pub then_stay : List Second → Listener State × Outcome → Listener State × Outcome
  then_stay seconds (l, completed) = stay seconds l
  then_stay seconds (l, raised) = (l, raised)
  then_stay seconds (l, cancelled) = (l, cancelled)

  -- what follows `acquire`
  unfoldable pub then_listen :
      Attempt → Listener State × Outcome → Option ℕ × Listener State × Outcome
  then_listen a (l, completed) =
      let (l', outcome) = then_stay a.seconds (call (add_listener a.connection) a.listens l) in
      (some a.connection, l', outcome)
  then_listen a (l, raised) = (none, l, raised)
  then_listen a (l, cancelled) = (none, l, cancelled)

  -- the `try` block, and the connection that it has got
  unfoldable pub listen : Attempt → Listener State → Option ℕ × Listener State × Outcome
  listen a l = then_listen a (call (acquire a.connection) a.acquires l)

  -- except Exception: pass
  unfoldable pub swallow : Listener State × Outcome → Listener State × Outcome
  swallow (l, completed) = (l, completed)
  swallow (l, raised) = (l, completed)
  swallow (l, cancelled) = (l, cancelled)

  -- the second `try` of the `finally` block
  unfoldable pub release_after : Attempt → ℕ → Listener State × Outcome → Listener State × Outcome
  release_after a conn (l, completed) = swallow (call (release conn) a.releases l)
  release_after a conn (l, raised) = (l, raised)
  release_after a conn (l, cancelled) = (l, cancelled)

  -- the `finally` block: each call in a `try` of its own
  unfoldable pub clean_up : Attempt → Option ℕ → Listener State → Listener State × Outcome
  clean_up a none l = (l, completed)
  clean_up a (some conn) l =
      release_after a conn (swallow (call (remove_listener conn) a.removes l))

  -- the sleep between two rounds
  unfoldable pub pause : Attempt → Listener State → Listener State
  pause a l = record l { worker = signal a.signalled l.worker }

  -- a cancellation leaves the function; an Exception of the `try` block is logged, and the `finally`
  -- block lets none out
  unfoldable pub unless_cancelled : Outcome → Listener State → Listener State → Listener State
  unless_cancelled completed left next = next
  unless_cancelled raised left next = next
  unless_cancelled cancelled left next = left

  unfoldable pub listen_notify_loop : List Attempt → Listener State → Listener State
  listen_notify_loop [] l = l
  listen_notify_loop (a ∷ attempts) l =
      let (conn, tried, outcome) = listen a l in
      let (l', cleaned) = clean_up a conn tried in
      let paused = pause a l' in
      let rest = listen_notify_loop attempts paused in
      let later = if a.interrupted then paused else rest in
      let next = if l'.worker.running then later else l' in
      if l.worker.running then unless_cancelled outcome l' (unless_cancelled cleaned l' next) else l

-- What the pool expects: the connection that is held after a call, and none if the call is of
-- another connection, or out of turn.
unfoldable pub after_call : Option ℕ → Call → Option (Option ℕ)
after_call none (acquire c) = some (some c)
after_call none (add_listener c) = none
after_call none (remove_listener c) = none
after_call none (release c) = none
after_call (some d) (acquire c) = none
after_call (some d) (add_listener c) = ite (ℕ_discrete c d) (some (some d)) none
after_call (some d) (remove_listener c) = ite (ℕ_discrete c d) (some (some d)) none
after_call (some d) (release c) = ite (ℕ_discrete c d) (some none) none

unfoldable pub held_from : Option (Option ℕ) → List Call → Option (Option ℕ)
held_from none calls = none
held_from (some o) [] = some o
held_from (some o) (c ∷ calls) = held_from (after_call o c) calls

held_from-append :
    (o : Option (Option ℕ)) (xs ys : List Call)
    → held_from o (xs ++ ys) ≡ held_from (held_from o xs) ys
unfolding held_from
held_from-append none xs ys = refl
held_from-append (some o) [] ys = refl
held_from-append (some o) (c ∷ xs) ys = held_from-append (after_call o c) xs ys

-- Every connection acquired so far is given back, and never were two held at a time.
abbrev pub AreReturned : List Call → Type 0
AreReturned calls = held_from (some none) calls ≡ some none

-- The pool takes its connection back, and no cancellation arrives while the `finally` block removes
-- the listener.
pub record IsCleanedUp (a : Attempt) : Type 0 where
  pub not_cancelled : a.removes ≢ cancelled
  pub released : a.releases ≡ completed

module _ {State : Type 0} where
  -- what is held after the calls so far, if the pool expected them
  held : Listener State → Option (Option ℕ)
  held l = held_from (some none) l.calls

  held-returned :
      (c : Call) (l : Listener State) → held (returned c l) ≡ held_from (held l) (c ∷ [])
  unfolding held returned
  held-returned c l = held_from-append (some none) l.calls (c ∷ [])

  stay-held : (ss : List Second) (l : Listener State) → held (stay ss l).0 ≡ held l
  unfolding stay second held
  stay-held [] l = refl
  stay-held (s ∷ ss) l = ground (arith, stay-held ss (second s l))

  then_stay-held :
      (ss : List Second) (c : ℕ) (o : Outcome) (l : Listener State)
      → held l ≡ some (some c)
      → held (then_stay ss (call (add_listener c) o l)).0 ≡ some (some c)
  unfolding then_stay call held_from after_call
  then_stay-held ss c completed l h =
      ground
        (arith, h, stay-held ss (returned (add_listener c) l), held-returned (add_listener c) l)
  then_stay-held ss c raised l h = h
  then_stay-held ss c cancelled l h = h

  -- behind the `try` block the connection that it has got is held
  then_listen-held :
      (a : Attempt) (o : Outcome) (l : Listener State)
      → held l ≡ some none
      → let tried = then_listen a (call (acquire a.connection) o l) in held tried.1 ≡ some tried.0
  unfolding then_listen call held_from after_call
  then_listen-held a completed l h =
      let c = a.connection in
      then_stay-held a.seconds c a.listens (returned (acquire c) l)
        (ground (arith, h, held-returned (acquire c) l))
  then_listen-held a raised l h = h
  then_listen-held a cancelled l h = h

  release-held :
      (c : ℕ) (o : Outcome) (l : Listener State)
      → o ≡ completed
      → held l ≡ some (some c)
      → held (swallow (call (release c) o l)).0 ≡ some none
  unfolding swallow call held_from after_call
  release-held c completed l e h = ground (arith, h, held-returned (release c) l)
  release-held c raised l e h = absurd (cc e)
  release-held c cancelled l e h = absurd (cc e)

  release_after-held :
      (a : Attempt) (c : ℕ) (o : Outcome) (l : Listener State)
      → o ≢ cancelled
      → a.releases ≡ completed
      → held l ≡ some (some c)
      → held (release_after a c (swallow (call (remove_listener c) o l))).0 ≡ some none
  unfolding swallow call release_after held_from after_call
  release_after-held a c completed l stays e h =
      unfold call swallow in
      release-held c a.releases (returned (remove_listener c) l) e
        (unfold held_from after_call in ground (arith, h, held-returned (remove_listener c) l))
  release_after-held a c raised l stays e h = release-held c a.releases l e h
  release_after-held a c cancelled l stays e h = absurd (stays refl)

  clean_up-held :
      (a : Attempt) (o : Option ℕ) (l : Listener State)
      → IsCleanedUp a
      → held l ≡ some o
      → held (clean_up a o l).0 ≡ some none
  unfolding clean_up
  clean_up-held a none l ends h = h
  clean_up-held a (some c) l ends h =
      release_after-held a c a.removes l ends.not_cancelled ends.released h

  unless_cancelled-held :
      (o : Outcome) (left next : Listener State)
      → held left ≡ some none
      → held next ≡ some none
      → held (unless_cancelled o left next) ≡ some none
  unfolding unless_cancelled
  unless_cancelled-held completed left next h k = k
  unless_cancelled-held raised left next h k = k
  unless_cancelled-held cancelled left next h k = h

  -- Let the pool take each connection back, and let no cancellation arrive while a listener is removed.
  -- Then, whatever rounds of the listener there were, whichever other calls raised, and whether a
  -- signal or a cancellation ended them: every connection that the pool gave went back to it, and
  -- never were two held at a time, if that was so before.
  pub listen_notify_loop-AreReturned :
      (attempts : List Attempt) (l : Listener State)
      → All IsCleanedUp attempts
      → AreReturned l.calls
      → AreReturned (listen_notify_loop attempts l).calls
  unfolding listen_notify_loop listen pause held
  listen_notify_loop-AreReturned [] l ends h = h
  listen_notify_loop-AreReturned (a ∷ attempts) l ends h =
      let tried = listen a l in
      let cleaned = clean_up a tried.0 tried.1 in
      let paused = pause a cleaned.0 in
      let once = clean_up-held a tried.0 tried.1 ends.0 (then_listen-held a a.acquires l h) in
      let rest = listen_notify_loop-AreReturned attempts paused ends.1 once in
      let later = if a.interrupted then paused else listen_notify_loop attempts paused in
      let next = if cleaned.0.worker.running then later else cleaned.0 in
      let kept : held next ≡ some none = ground (arith, once, rest) in
      ground (
        arith,
        h,
        unless_cancelled-held tried.2 cleaned.0 (unless_cancelled cleaned.1 cleaned.0 next) once
            (unless_cancelled-held cleaned.1 cleaned.0 next once kept),
      )
