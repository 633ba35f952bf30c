-- ===== src/Cli.antt =====
-- clients/cli: the scan of a tree of files, and the report of what it found.
pub mod Findings
pub mod Tables
pub mod Report
pub mod Excerpt
pub mod Runner
pub mod Command
mod Tests
