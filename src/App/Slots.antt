-- ===== src/App/Slots.antt =====
-- The module-level slots: `_factory` of app/db/session_factory.py, `_redis` of app/db/redis.py,
-- `_tracer` and `_tracer_provider` of app/observability.py. An object is its identity; what closes or
-- disposes of one is recorded in order.
use analytics_pipeline.Prelude.{ℕ, List, [], ◌∷◌, ◌++◌, Option, none, some}

-- RuntimeError: the slot is not configured
pub data Slot {ℓ} (A : Type ℓ) : Type ℓ where
  configured : A → Slot A
  not_configured : Slot A

pub record Process : Type 0 where
  pub factory : Option ℕ
  pub redis : Option ℕ
  pub tracer : Option ℕ
  pub tracer_provider : Option ℕ
  -- engines disposed of, Redis clients closed and tracer providers shut down
  pub disposed : List ℕ
  pub closed : List ℕ
  pub shut_down : List ℕ

abbrev pub new_process : Process
new_process = record {
  factory = none;
  redis = none;
  tracer = none;
  tracer_provider = none;
  disposed = [];
  closed = [];
  shut_down = [];
}

unfoldable pub slot : Option ℕ → Slot ℕ
slot none = not_configured
slot (some a) = configured a

unfoldable pub configure_session_factory : ℕ → Process → Process
configure_session_factory factory p = record p { factory = some factory }

unfoldable pub get_session_factory : Process → Slot ℕ
get_session_factory p = slot p.factory

unfoldable pub reset_session_factory : Process → Process
reset_session_factory p = record p { factory = none }

unfoldable pub configure_redis : ℕ → Process → Process
configure_redis client p = record p { redis = some client }

unfoldable pub get_redis : Process → Slot ℕ
get_redis p = slot p.redis

unfoldable pub reset_redis : Process → Process
reset_redis p = record p { redis = none }

-- the client that `close_redis` finds
unfoldable pub close_client : Option ℕ → Process → Process
close_client none p = p
close_client (some client) p = record p { redis = none; closed = p.closed ++ client ∷ [] }

unfoldable pub close_redis : Process → Process
close_redis p = close_client p.redis p

-- What installing OpenTelemetry comes to: nothing if no endpoint is given, a package is missing or the
-- exporter fails, and a provider with its tracer otherwise.
pub data Tracing : Type 0 where
  no_endpoint not_installed failed : Tracing
  installed : ℕ → ℕ → Tracing

unfoldable pub init_tracing : Tracing → Process → Process
init_tracing Tracing.no_endpoint p = p
init_tracing Tracing.not_installed p = p
init_tracing Tracing.failed p = p
init_tracing (Tracing.installed provider tracer) p = record p {
  tracer_provider = some provider;
  tracer = some tracer;
}

unfoldable pub shut_provider : Option ℕ → Process → Process
shut_provider none p = p
shut_provider (some provider) p = record p {
  tracer_provider = none;
  shut_down = p.shut_down ++ provider ∷ [];
}

-- an exception of the provider is logged
unfoldable pub shutdown_tracing : Process → Process
shutdown_tracing p = shut_provider p.tracer_provider p

-- the tracer, or `noop`
unfoldable pub get_tracer : ℕ → Process → ℕ
get_tracer noop p = elim p.tracer [ none ↦ noop | some tracer ↦ tracer ]
