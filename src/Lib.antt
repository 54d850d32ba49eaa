-- ===== src/Lib.antt =====
-- aion-trust: claims that issuers sign, disclosures and presentations that their subjects make of
-- them, and the verifier with its registry and nonce store.
--
-- The program: an issuer commits to the fields of a claim body as salted Merkle leaves and signs
-- the root (crates/aion-trust-claims/src/claim.rs over crates/aion-trust-core/src/merkle.rs). The
-- subject discloses some fields with their audit paths (disclosure.rs) and signs a bundle of such
-- disclosures for one audience and nonce (presentation.rs). The verifier consults a trust anchor,
-- either an issuer directory or the registry (crates/aion-trust-registry/src/lib.rs), checks
-- everything, evaluates predicates over the proven fields (predicate.rs), and keeps accepted
-- nonces in a store (nonce.rs).
--
-- Which file models what:
-- - Prelude and below it: results, lists, texts as lists of their UTF-8 bytes, a BTreeMap as an
--   association list ordered by key, integers over the native numbers.
-- - Crypto: BLAKE3, Ed25519 and the CSPRNG of the aion-context crate, as an interface with the
--   laws that its documentation promises; Crypto/Toy is an instance.
-- - Json: serde_json values, their canonical form and f64, as an interface; Json/Toy is an
--   instance.
-- - Encoding: crates/aion-trust-core/src/encoding.rs and error.rs: Words for the big-endian words,
--   Writer for `SigningWriter`, Hex for `to_hex`, `from_hex` and `decode_array`.
-- - Identity: id.rs, identity.rs and time.rs of the core crate. The newtypes are their content.
-- - Merkle: merkle.rs of the core crate; Split, Tree, TreeHash, Complete and Binding are about it.
-- - Claims and below it, after the files of crates/aion-trust-claims/src: Bodies, Fields,
--   Reliance, Reject (`ClaimReject`), Claim, Predicate, Anchor, Nonce. disclosure.rs is Disclosure
--   for the holder (with `Claim::disclose`) and DisclosureVerifier; presentation.rs is
--   Presentation for the holder, Report for checks and the verdict, and PresentationVerifier; below
--   it, Verdict is about acceptance and Amber, over Forgiven, Resolved and
--   Unresolved, about the amber verdict. A method `T::f` is the function `f` on a record `T`; a
--   method that takes `&mut self` returns the new record. `NonceStore::record` is `remember` here.
-- - Registry: crates/aion-trust-registry/src/lib.rs, with Accredited and Revocation about it.
-- - Wallet: crates/aion-trust-wallet/src/lib.rs; Storage is its file, over an interface for the
--   key derivation, the AEAD, serde_json and the file system. Present and Satisfy are about the
--   wallet before the verifier.
-- - Interop: Rfc3339 and DidKey after rfc3339.rs and didkey.rs of crates/aion-trust-interop/src,
--   Error after error.rs. Below DidKey, Radix is about the change of radix in both base58 loops.
-- - Web: the state and the handlers of crates/aion-trust-web/src/state.rs, issuer.rs, wallet.rs
--   and verifier.rs, on parsed forms; a hash map of issuers is a list in the order of its
--   iteration. Seed is `AppState::seed` and `reset`, of fresh keys and draws; Walkthrough has the
--   acts of walkthrough.rs, each of which holds the lock by itself; Requests lists the requests of
--   lib.rs and those acts as steps. Kept is about one step, Revoked about sequences of steps, and
--   Red about verification after a revocation. A panic on a poisoned lock and the pages are left
--   out.
-- - Tests: a run of issuance, disclosure, presentation and verification on the toy interfaces.
--
-- Bounds and fuel: a length prefix is the length modulo 2^32, as `as u32` makes it; an `i64` is
-- written in two's complement; `usize` and `u64` have 64 bits. `grow`, the loop of `split_point`,
-- has the number of leaves as fuel, and each of its rounds at least doubles its counter. `mth` and
-- `path` have the number of leaves as fuel, which is enough since both parts of a split are
-- shorter (Merkle/Tree is about it). The digits of a number have that number and one as fuel, and
-- so has the pushing of a carry, since each round divides by 10, 58 or 256. Sums on `i64` in the
-- civil calendar are exact integers: a day number is at most 2^63 / 86400 in size.
--
-- Not modelled: the command-line crate; vc.rs and vp.rs of the interop crate; the forms and pages
-- of the web crate, and the events that its walkthrough sends; the clock and the CSPRNG, which are
-- arguments; the texts of errors and of the details of checks; accessors
-- and Display; the inside of the cryptography and of the JSON library.
pub mod Prelude
pub mod Crypto
pub mod Encoding
pub mod Merkle
pub mod Identity
pub mod Json
pub mod Claims
pub mod Registry
pub mod Wallet
pub mod Interop
pub mod Web
pub mod Tests
