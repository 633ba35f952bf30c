-- ===== src/Analyzer.antt =====
-- services/analyzer: the chain of detectors over one change.
pub mod Analyze
pub mod Detectors
pub mod Server
mod Tests
