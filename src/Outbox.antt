-- ===== src/Outbox.antt =====
-- The outbox of events for the appointment provider: src/modules/transactions/tajdeed-events, its
-- DAO and entity under src/modules/database, and the constants of the provider integration.
pub mod Row
pub mod Dao
pub mod Backoff
pub mod Provider
pub mod Service
pub mod Dispatcher
pub mod Live
pub mod LiveUnique
pub mod LiveRetry
pub mod Delivery
pub mod Batch
pub mod Retried
pub mod Settled
pub mod Schedule
pub mod Branch
pub mod Anomalies
mod Tests
