-- ===== src/Types.antt =====
-- zel_types: the types that the server, the client and the generated code share.
pub mod Protocol
pub mod Errors
