-- ===== src/Arrival.antt =====
-- Arrival: what modules/transactions/anpr-captures/services/capture-validation.service.ts makes of a vehicle
-- that a camera has read.
pub mod Lanes
pub mod Unattended
pub mod Pairing
pub mod Assigned
pub mod Eligible
pub mod Paired
pub mod Forgotten
