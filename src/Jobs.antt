-- ===== src/Jobs.antt =====
-- Jobs: `create`, `createFromAppointment` and `remove` of jobs/services/job.service.ts, and the queries and
-- guards they call.
pub mod Service
pub mod Conversion
pub mod Create
pub mod Guards
pub mod Convert
pub mod Removal
