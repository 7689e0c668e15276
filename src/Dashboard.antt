-- ===== src/Dashboard.antt =====
-- apps/web: the stores and the clients of the operators' dashboard.
pub mod AuthStore
pub mod IncidentApi
pub mod Incidents
pub mod Socket
pub mod Alerts
pub mod Timeline
mod Tests
