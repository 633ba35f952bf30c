-- ===== src/Assurance.antt =====
-- pkg/assurance: the combined release gate over code governance and agent assurance.
pub mod Status
pub mod Gate
pub mod Allowlist
pub mod Contract
pub mod Tenancy
pub mod Build
pub mod Client
pub mod Scm
pub mod Release
pub mod Api
pub mod Store
mod Tests
