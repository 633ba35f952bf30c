-- ===== src/Ingestion.antt =====
-- services/ingestion: what is accepted for governance, and its way onto the bus.
pub mod Submission
pub mod Enqueue
pub mod Kafka
pub mod Webhook
pub mod Server
mod Tests
