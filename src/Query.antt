-- ===== src/Query.antt =====
-- The read path: the SELECTs of app/repositories/rollup_repository.py and
-- app/services/query_service.py.
pub mod Group
pub mod Rollups
pub mod Granularity
pub mod Metrics
pub mod Totals
pub mod Again
pub mod Counted
pub mod Route
pub mod Sparkline
pub mod Cached
pub mod Leaderboard
pub mod Aligned
pub mod Bounded
