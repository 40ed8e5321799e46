-- ===== src/App.antt =====
-- How the process starts and stops: app/main.py with the slots of app/db/session_factory.py,
-- app/db/redis.py and app/observability.py.
pub mod Slots
pub mod Lifespan
pub mod Middleware
