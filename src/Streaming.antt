-- ===== src/Streaming.antt =====
-- zel_core/src/protocol/streaming.rs, and the ends in client.rs that the sinks talk to.
pub mod SubscriptionSink
pub mod NotificationSink
pub mod SubscriptionStream
pub mod NotificationSender
pub mod Pipe
pub mod Delivery
pub mod Acknowledged
