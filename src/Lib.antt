-- ===== src/Lib.antt =====
-- A payment analytics service: what its write path, its rollup worker and its read path do to the
-- database, and what that comes to.
--
-- Events arrive at POST /events and are stored in raw_events, each under an idempotency key that
-- event_idempotency claims for it. A worker polls raw_events behind an offset and adds each batch
-- to three rollup tables (minute, hour, day), in one transaction with a marker for each event
-- and the new offset. Queries read the rollup tables, and Redis holds a leaderboard and caches.
--
-- Prelude: lists, decisions, maps with distinct keys, stable sorting, permutations.
-- Result: what a call may raise.
-- Settings: app/core/config.py; Url is `fix_database_url`, with what the worker and the start-up make
--   of the URL.
-- Moment: `datetime`, in UTC; Calendar says which moments exist.
-- Records, Database: the rows and tables of app/models/orm.py and the bodies of
--   app/models/schemas.py. A UUID is its number; a table is the list of its rows, or a map.
-- Rollup: Buckets, Accum and Aggregate are the helpers, `_BucketAccum` and `_aggregate_batch` of
--   app/workers/rollup_worker.py; Table is the upserts of app/repositories/rollup_repository.py;
--   Single is its `upsert_all_granularities`; Summary says what a cell should hold.
-- Worker: Fetch is `get_events_after` of app/repositories/event_repository.py; Markers and Batch
--   are `_insert_processed_markers` and the transaction of `_process_batch` of
--   app/workers/rollup_worker.py. Cycle is the whole of `_process_batch` with `_process_loop`,
--   `_handle_shutdown` and `_log_late_events`, and Listen is `_listen_notify_loop`. Totals, Commit,
--   Exact, Replay, Idempotent, Cursor, Consumers, Live, Loop, Weigh, Measure, Measured, Volume,
--   Scores, Answered and Fits hold the proofs. A run of the program is a sequence of steps: a batch
--   that commits, an offset that moves anywhere, an event that is stored; a crash before the commit
--   changes nothing.
-- Ingest: Store and Batch are the statements of app/repositories/event_repository.py; Service is
--   `ingest_event` of app/services/ingestion_service.py, the route of app/api/routes/events.py
--   and `get_db` of app/db/engine.py; Respond is `ingest_batch` of the service, Route that
--   of the routes. Single, Keys, Requests, Served, Answers, Resend and the children of Batch hold
--   the proofs.
-- Query: Group, Rollups and Leaderboard are the SELECTs of
--   app/repositories/rollup_repository.py; Granularity, Metrics and Sparkline are
--   `_select_granularity`, `get_merchant_metrics` and `get_sparkline` of
--   app/services/query_service.py. Route is GET /metrics of app/api/routes/metrics.py. Totals,
--   Counted, Again, Aligned and Bounded hold the proofs: from the worker's markers to the metrics, of
--   two calls in a row, and on the number of points.
-- Board: Increments and Update are `_update_leaderboard` of app/workers/rollup_worker.py and
--   `leaderboard_increment_batch` of app/repositories/redis_repository.py; Serve is
--   `get_leaderboard` of app/services/query_service.py with `leaderboard_rebuild`; SortedSets is the
--   interface of what they ask of Redis, with the laws that Redis documents. PeriodKey and Accepted
--   are the text of a period, Route is GET /leaderboard, and Current is the request that names none.
--   Cold, Months, Standings, Answered, Top and Agreement hold the proofs, from the events to the
--   answer.
-- Health: `health_check` of app/api/routes/health.py.
-- Redis: Keys, Strings and Cache are the rest of app/repositories/redis_repository.py: the keys, what
--   is asked of Redis, the query cache, the counters and the heartbeat. Cached of Query is
--   `get_sparkline` over it.
-- Nightly: Compaction and Snapshot are scripts/nightly_compaction.py, Partitions is
--   scripts/create_partitions.py; DaySum, Kept, Reached, Unchanged and Report hold the proofs.
-- App: Slots is app/db/session_factory.py, app/db/redis.py and the slots of app/observability.py;
--   Lifespan and Middleware are `lifespan`, `_seed_demo_data` and `RequestContextMiddleware` of
--   app/main.py.
-- Schema: Defs is what PostgreSQL does with the DDL; Initial and Revisions are migrations/versions;
--   Models is the metadata of app/models/orm.py with the targets of the ON CONFLICT clauses. Unused,
--   Head, Partitioned and Stored hold the proofs.
-- Load: `LoadSimulator` of scripts/load_simulator.py. What is drawn at random is an argument.
--   Faults is `run_fault_injection`, against the modelled POST /events.
-- Tests: the theorems at concrete inputs, and runs.
--
-- Statements of one transaction run without interference: transactions are the steps. Amounts,
-- counts and sums are natural numbers; an INTEGER column refuses an amount from 2 ^ 31 on, and the
-- BIGINT sums are not bounded. A success rate is the quotient before it is rounded. Every
-- function is structural recursion, and none takes fuel. What Redis and the pool answer is an
-- argument. ORDER BY is stable on the rows that it does not tell apart.
--
-- Not modelled: the passing of time inside Redis (a key that expires is a state without it), the
-- leaderboard history, the probes, Pydantic's validation, the routing, logging and metrics export,
-- the set-up of engines and pools, that of Alembic, and the dashboard.
mod Prelude
mod Result
pub mod Settings
pub mod Moment
pub mod Records
pub mod Rollup
pub mod Database
pub mod Worker
pub mod Ingest
pub mod Query
pub mod Board
pub mod Health
mod Tests
pub mod Redis
pub mod Nightly
pub mod App
pub mod Load
pub mod Schema
