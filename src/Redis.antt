-- ===== src/Redis.antt =====
-- app/repositories/redis_repository.py, apart from the leaderboard, which is under Board: the keys,
-- the query cache, the counters and the worker's heartbeat.
pub mod Keys
pub mod Strings
pub mod Cache
