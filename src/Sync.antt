-- ===== src/Sync.antt =====
-- The synchronisation of the tables of a centre with those of the central node.
pub mod Upsert
pub mod Kept
pub mod Replay
