-- ===== src/Incident.antt =====
-- services/incident-service
pub mod Lifecycle
pub mod Aggregate
pub mod Repository
pub mod Requests
pub mod Routes
mod Tests
