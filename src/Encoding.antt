-- ===== src/Encoding.antt =====
-- crates/aion-trust-core/src/encoding.rs: the hex codec and the domain-separated signing-byte
-- writer; crates/aion-trust-core/src/error.rs: the error type, its messages left out.
pub mod Words
pub mod Writer
pub mod Hex
