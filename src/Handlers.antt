-- ===== src/Handlers.antt =====
-- zel_core/src/protocol/handlers: what the server does with one request.
pub mod Guard
