-- ===== src/Nightly.antt =====
-- The nightly scripts: scripts/nightly_compaction.py and scripts/create_partitions.py.
pub mod Compaction
pub mod DaySum
pub mod Kept
pub mod Reached
pub mod Unchanged
pub mod Report
pub mod Partitions
pub mod Snapshot
