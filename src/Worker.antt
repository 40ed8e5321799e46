-- ===== src/Worker.antt =====
-- app/workers/rollup_worker.py: the worker, batch by batch.
pub mod Fetch
pub mod Markers
pub mod Batch
pub mod Totals
pub mod Commit
pub mod Exact
pub mod Replay
pub mod Idempotent
pub mod Cursor
pub mod Consumers
pub mod Live
pub mod Cycle
pub mod Loop
pub mod Listen
pub mod Weigh
pub mod Measure
pub mod Measured
pub mod Volume
pub mod Scores
pub mod Answered
pub mod Fits
