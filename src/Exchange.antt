-- ===== src/Exchange.antt =====
-- The files that the centre exchanges with the Admin PC of a lane: common/shared/files and the services
-- of modules/jobs that write and watch them.
pub mod Ini
pub mod Lines
pub mod Document
pub mod RoundTrip
pub mod OutFile
pub mod OutFileVerdict
pub mod Names
pub mod NameRoundTrip
pub mod Watcher
pub mod Steps
pub mod Rescan
pub mod Frame
pub mod Pipeline
pub mod InFile
pub mod InFileReading
