-- ===== src/Client.antt =====
-- zel_core/src/protocol/client.rs: the client's side of every endpoint.
pub mod Errors
pub mod Transport
pub mod Operations
pub mod Calls
pub mod Established
pub mod Subscribed
pub mod Bidirectional
pub mod Retried
pub mod AtOnce
pub mod Crossing
