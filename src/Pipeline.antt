-- ===== src/Pipeline.antt =====
-- services/event-pipeline
pub mod Dedup
pub mod Ordering
pub mod Orchestrator
pub mod Persistence
pub mod Outbox
pub mod Prioritization
pub mod AiBridge
mod Tests
