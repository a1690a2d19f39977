-- ===== src/Examples.antt =====
-- Small concrete instances of the interfaces, and the theorems applied to them.
mod Text
mod Codec
mod Instances
mod Network
mod Values
mod Retries
mod Guards
mod Shutdowns
mod AcceptLoops
mod Contexts
mod Parts
mod Connections
mod Crossing
mod Macros
mod Generated
mod Gated
mod Persistence
mod Duplicates
mod Unread
mod GeneratedStreams
mod GeneratedPairs
mod Typed
mod Exchanges
mod Bundles
mod Traits
mod Bounds
