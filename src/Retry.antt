-- ===== src/Retry.antt =====
-- zel_core/src/protocol/retry.rs and retry_metrics.rs, and the retry loop of client.rs.
pub mod Config
pub mod Metrics
pub mod Backon
pub mod Loop
pub mod Outcomes
pub mod Bounds
