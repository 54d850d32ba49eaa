-- ===== src/Claims.antt =====
-- The crate crates/aion-trust-claims: claim bodies, their commitments, signed claims, selective
-- disclosure, and the presentation with its verifier.
pub mod Reject
pub mod Bodies
pub mod Fields
pub mod Reliance
pub mod Claim
pub mod Disclosure
pub mod DisclosureVerifier
pub mod Predicate
pub mod Anchor
pub mod Report
pub mod Presentation
pub mod PresentationVerifier
pub mod Nonce
