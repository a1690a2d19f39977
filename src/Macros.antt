-- ===== src/Macros.antt =====
-- zel_macros/src: what the service macro makes of the trait that it is put on.
pub mod Attributes
pub mod Helpers
pub mod Names
pub mod Signatures
pub mod Values
pub mod Codegen
pub mod Server
pub mod Typed
pub mod Client
pub mod Items
pub mod Service
pub mod Expansion
