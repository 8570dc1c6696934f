-- ===== src/Ingest.antt =====
-- Ingest: what modules/transactions/online-appointments/services/appointment-ingest.service.ts makes of the
-- bookings that the provider returns, and common/utils/oman-phone.util.ts.
pub mod Phone
pub mod PhoneForms
pub mod Dao
pub mod Bookings
pub mod Parties
pub mod Promote
pub mod Reconcile
pub mod Cycle
pub mod Frames
pub mod OpenPlates
pub mod OneOpen
pub mod Queue
pub mod Visits
pub mod Untouched
pub mod Followed
pub mod Reinstated
pub mod Requeued
pub mod Promoted
pub mod Blocked
