-- ===== src/Store.antt =====
-- The database as jobs, payments and pricing see it, and the calls that read and write it.
pub mod Entities
pub mod Action
pub mod Dao
pub mod Runs
