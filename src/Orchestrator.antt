-- ===== src/Orchestrator.antt =====
-- services/orchestrator/internal: the analysis saga of one submission.
pub mod Verdict
pub mod Saga
pub mod Memory
pub mod Outbox
pub mod Codec
pub mod Stages
pub mod Semantic
pub mod RedisCache
pub mod Tests
