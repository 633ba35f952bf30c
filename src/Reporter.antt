-- ===== src/Reporter.antt =====
-- services/reporter: reports of verdicts, and their delivery to every destination.
pub mod Report
pub mod Dispatch
pub mod Consumer
pub mod Notify
pub mod RedisLog
mod Tests
