-- ===== src/Server.antt =====
-- zel_core/src/protocol/server.rs, builder.rs and the streaming handlers.
pub mod Registry
pub mod Build
pub mod Streams
pub mod Dispatch
pub mod Replies
pub mod Starts
