-- ===== src/Payments.antt =====
-- Payments: `create`, `update`, `remove` and `findOne` of
-- transactions/payments/services/payments.service.ts. `fetch` is the answer of the payment API to a
-- plate, `now` the clock.
pub mod References
pub mod Service
pub mod Create
pub mod Refused
pub mod Relink
pub mod Update
