-- ===== src/Http.antt =====
-- packages/http-client
pub mod CircuitBreaker
pub mod Client
mod Tests
