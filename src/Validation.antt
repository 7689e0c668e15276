-- ===== src/Validation.antt =====
-- services/validation-engine
pub mod Layers
pub mod Orchestrator
pub mod Review
pub mod References
pub mod Input
pub mod Emission
pub mod Sanity
pub mod Risk
pub mod Rules
mod Tests
