-- ===== src/Broadcaster.antt =====
-- services/ws-broadcaster
pub mod Registry
pub mod Hydrator
pub mod Bridge
pub mod Connect
mod Tests
