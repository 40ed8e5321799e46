-- ===== src/Schema.antt =====
-- The schema of the database: migrations/versions and the metadata of app/models/orm.py.
pub mod Defs
pub mod Initial
pub mod Revisions
pub mod Unused
pub mod Head
pub mod Partitioned
pub mod Models
pub mod Stored
