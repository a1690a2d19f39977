-- ===== src/Breaker.antt =====
-- zel_core/src/protocol/circuit_breaker.rs and circuit_breaker_stats.rs.
pub mod Config
pub mod Library
pub mod Peers
pub mod Calls
pub mod Isolation
pub mod Stats
pub mod Thresholds
