-- ===== src/Examples.antt =====
-- The theorems applied to a concrete database and to concrete files.
mod Shop
mod Prices
mod Conversions
mod Payments
mod Files
mod Submissions
mod Roles
mod Syncs
mod Bookings
