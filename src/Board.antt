-- ===== src/Board.antt =====
-- The leaderboard: `_update_leaderboard` of app/workers/rollup_worker.py, the sorted sets of
-- app/repositories/redis_repository.py and `get_leaderboard` of app/services/query_service.py.
pub mod Increments
pub mod SortedSets
pub mod Update
pub mod Serve
pub mod Cold
pub mod PeriodKey
pub mod Accepted
pub mod Route
pub mod Current
pub mod Months
pub mod Standings
pub mod Answered
pub mod Top
pub mod Agreement
