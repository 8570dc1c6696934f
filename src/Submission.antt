-- ===== src/Submission.antt =====
-- The life of a job after it was created: start, update, redo and submission, and the inspection result
-- that a submission files.
pub mod Readings
pub mod Clock
pub mod Mapper
pub mod Hours
pub mod Update
pub mod Filing
pub mod Service
pub mod OneLive
pub mod Verdicts
pub mod Updated
pub mod Queued
pub mod Told
pub mod Generated
