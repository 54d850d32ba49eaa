-- ===== src/Interop.antt =====
-- crates/aion-trust-interop/src: the exchange forms of times and keys.
pub mod Error
pub mod Rfc3339
pub mod DidKey
