-- ===== src/Gateway.antt =====
-- services/gateway: governance of an agent's tool calls, package installs and usage.
pub mod Typosquat
pub mod Policy
pub mod Audit
pub mod Routes
mod Tests
