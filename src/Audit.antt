-- ===== src/Audit.antt =====
-- services/audit-service
pub mod Canonical
pub mod Chain
pub mod Writer
pub mod Subscribers
pub mod App
mod Tests
