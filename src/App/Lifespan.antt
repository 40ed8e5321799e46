-- ===== src/App/Lifespan.antt =====
-- `lifespan` and `_seed_demo_data` of app/main.py. What the startup asks of the database, of Redis and
-- of Alembic may fail; then the process ends where it stands.
use analytics_pipeline.Prelude.{
  ℕ, ◌+◌, List, [], ◌∷◌, ◌++◌, Bool, true, Option, none, some, ◌||◌, if◌then◌else◌, ◌≡◌, refl, sym,
  ap, ◌∙◌, arith,
}
use analytics_pipeline.App.Slots.{
  Process, Slot, configured, not_configured, Tracing, configure_session_factory,
  get_session_factory, reset_session_factory, configure_redis, reset_redis, close_redis,
  init_tracing, shutdown_tracing, slot, shut_provider, close_client,
}
use mathlib.Core.List.{append-nil}

-- what `lifespan` builds, and what the systems around it answer
pub record Startup : Type 0 where
  pub engine : ℕ
  pub factory_of_engine : ℕ
  pub client : ℕ
  pub tracing : Tracing
  -- SELECT 1, PING, and the migrations
  pub database_answers : Bool
  pub redis_answers : Bool
  pub skip_migrations : Bool
  pub migrates : Bool

-- where the startup gets to
pub data Started : Type 0 where
  running : Started
  no_database no_redis no_migration : Started

-- the ids of the ten demo merchants
abbrev pub demo_merchants : ℕ → List ℕ
demo_merchants first =
    first
    ∷ (first + 1)
    ∷ (first + 2)
    ∷ (first + 3)
    ∷ (first + 4)
    ∷ (first + 5)
    ∷ (first + 6)
    ∷ (first + 7)
    ∷ (first + 8)
    ∷ (first + 9)
    ∷ []

-- `_seed_demo_data`: only into an empty table
unfoldable pub seed_demo_data : ℕ → List ℕ → List ℕ
seed_demo_data first [] = demo_merchants first
seed_demo_data first (m ∷ merchants) = m ∷ merchants

-- try get_session_factory() except RuntimeError: the engine that was built, if one was
unfoldable pub build_if_missing : Startup → Slot ℕ → Process → Process × Option ℕ
build_if_missing s (configured factory) p = (p, none)
build_if_missing s not_configured p =
    (configure_session_factory s.factory_of_engine p, some s.engine)

-- the process after the startup, the engine that it built, the merchants, and how it went
pub record Run : Type 0 where
  pub process : Process
  pub engine : Option ℕ
  pub merchants : List ℕ
  pub started : Started

-- from the Redis client on
unfoldable pub start_redis : ℕ → Startup → Process → Option ℕ → List ℕ → Run
start_redis first s p engine merchants =
    let p' = configure_redis s.client p in
    if s.redis_answers
    then if s.skip_migrations || s.migrates
      then record {
        process = p';
        engine = engine;
        merchants = seed_demo_data first merchants;
        started = running;
      }
      else record { process = p'; engine = engine; merchants = merchants; started = no_migration }
    else record { process = p'; engine = engine; merchants = merchants; started = no_redis }

-- up to the `yield`
unfoldable pub start_up : ℕ → Startup → Process → List ℕ → Run
start_up first s p merchants =
    let traced = init_tracing s.tracing p in
    let (built, engine) = build_if_missing s (get_session_factory traced) traced in
    if s.database_answers
    then start_redis first s built engine merchants
    else record { process = built; engine = engine; merchants = merchants; started = no_database }

-- if _engine is not None
unfoldable pub dispose : Option ℕ → Process → Process
dispose none p = p
dispose (some engine) p = reset_session_factory (record p { disposed = p.disposed ++ engine ∷ [] })

-- after the `yield`
unfoldable pub shut_down : Option ℕ → Process → Process
shut_down engine p = shutdown_tracing (reset_redis (close_redis (dispose engine p)))

-- a startup that raises is not shut down
unfoldable pub finish : Run → Process
finish r = elim r.started [ running ↦ shut_down r.engine r.process | _ ↦ r.process ]

unfoldable pub lifespan : ℕ → Startup → Process → List ℕ → Process
lifespan first s p merchants = finish (start_up first s p merchants)

-- the engine that a lifespan has to build
unfoldable pub engines_built : Option ℕ → ℕ → List ℕ
engines_built none engine = engine ∷ []
engines_built (some factory) engine = []

start_up_running :
    (first : ℕ) (s : Startup) (p : Process) (merchants : List ℕ)
    → s.database_answers ≡ true
    → s.redis_answers ≡ true
    → (s.skip_migrations || s.migrates) ≡ true
    → start_up first s p merchants ≡ record {
      process =
          configure_redis s.client
            (build_if_missing s
              (get_session_factory (init_tracing s.tracing p))
              (init_tracing s.tracing p)).0;
      engine =
          (build_if_missing s
            (get_session_factory (init_tracing s.tracing p))
            (init_tracing s.tracing p)).1;
      merchants = seed_demo_data first merchants;
      started = running;
    }
unfolding start_up start_redis
start_up_running first s p merchants d r m = ground (arith, d, r, m)

-- closing the provider leaves the rest alone
shut_provider-kept :
    (o : Option ℕ) (p : Process)
    → ((shut_provider o p).factory ≡ p.factory)
      × ((shut_provider o p).disposed ≡ p.disposed)
      × ((shut_provider o p).redis ≡ p.redis)
      × ((shut_provider o p).closed ≡ p.closed)
      × (p.tracer_provider ≡ o → (shut_provider o p).tracer_provider ≡ none)
unfolding shut_provider
shut_provider-kept none p = (refl, refl, refl, refl, λ h. h)
shut_provider-kept (some provider) p = (refl, refl, refl, refl, λ h. refl)

init_tracing-kept :
    (t : Tracing) (p : Process)
    → ((init_tracing t p).factory ≡ p.factory)
      × ((init_tracing t p).disposed ≡ p.disposed)
      × ((init_tracing t p).closed ≡ p.closed)
unfolding init_tracing
init_tracing-kept Tracing.no_endpoint p = (refl, refl, refl)
init_tracing-kept Tracing.not_installed p = (refl, refl, refl)
init_tracing-kept Tracing.failed p = (refl, refl, refl)
init_tracing-kept (Tracing.installed provider tracer) p = (refl, refl, refl)

-- from the traced process to the end, by what its factory slot held
ended :
    (s : Startup) (o : Option ℕ) (t : Process)
    → t.factory ≡ o
    → let built = build_if_missing s (slot o) t in
      let last = shut_down built.1 (configure_redis s.client built.0) in
      (last.factory ≡ o)
      × (last.disposed ≡ t.disposed ++ engines_built o s.engine)
      × (last.redis ≡ none)
      × (last.closed ≡ t.closed ++ s.client ∷ [])
      × (last.tracer_provider ≡ none)
unfolding build_if_missing slot shut_down dispose shutdown_tracing reset_redis close_redis
    close_client configure_redis reset_session_factory configure_session_factory engines_built
ended s none t h =
    let kept = shut_provider-kept t.tracer_provider _ in
    (kept.0, kept.1, kept.2, kept.3, kept.4 refl)
ended s (some factory) t h =
    let kept = shut_provider-kept t.tracer_provider _ in
    (kept.0 ∙ h, kept.1 ∙ sym (append-nil t.disposed), kept.2, kept.3, kept.4 refl)

-- A lifespan whose database, Redis and migrations answer leaves the session factory as it found it and
-- disposes of exactly the engine that it built, which is none if a factory was there; it closes its
-- own Redis client and leaves that slot empty, and no tracer provider is left.
pub lifespan_lem :
    (first : ℕ) (s : Startup) (p : Process) (merchants : List ℕ)
    → s.database_answers ≡ true
    → s.redis_answers ≡ true
    → (s.skip_migrations || s.migrates) ≡ true
    → ((lifespan first s p merchants).factory ≡ p.factory)
      × ((lifespan first s p merchants).disposed ≡ p.disposed ++ engines_built p.factory s.engine)
      × ((lifespan first s p merchants).redis ≡ none)
      × ((lifespan first s p merchants).closed ≡ p.closed ++ s.client ∷ [])
      × ((lifespan first s p merchants).tracer_provider ≡ none)
unfolding lifespan finish get_session_factory
lifespan_lem first s p merchants d r m =
    let traced = init_tracing s.tracing p in
    let kept = init_tracing-kept s.tracing p in
    let end = ended s traced.factory traced refl in
    rw (start_up_running first s p merchants d r m) (
      end.0 ∙ kept.0,
      end.1 ∙ cc (kept.0, kept.1),
      end.2,
      end.3 ∙ ap (λ c. c ++ s.client ∷ []) kept.2,
      end.4,
    )
