-- ===== src/Rollup.antt =====
-- The rollup path: buckets, the accumulation of a batch, and the rollup tables.
pub mod Buckets
pub mod Accum
pub mod Summary
pub mod Aggregate
pub mod Table
pub mod Single
pub mod Aligned
