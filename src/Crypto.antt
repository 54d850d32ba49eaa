-- ===== src/Crypto.antt =====
-- The cryptography and the CSPRNG that the program takes from the `aion-context` crate, as an
-- interface: aion_context::crypto (hash, keyed_hash, SigningKey, VerifyingKey). Nothing here
-- models the inside of that crate. `CryptoLaws` holds what its documentation promises and the
-- program relies on: the sizes of its outputs, and that a signature made by a key verifies.
pub mod Toy
use aion_trust.Prelude.{ℕ, ◌≡◌, ◌≢◌, Bool, true, Option, some, length, Bytes, AreBytes}

pub record Crypto : Type 1 where
  pub SigningKey : Type 0
  pub VerifyingKey : Type 0
  -- `crypto::hash` (BLAKE3) and `crypto::keyed_hash`
  pub hash : Bytes → Bytes
  pub keyed_hash : Bytes → Bytes → Bytes
  -- `SigningKey::{from_bytes, to_bytes, verifying_key, sign}`
  pub signing_key_from_bytes : Bytes → Option SigningKey
  pub signing_key_to_bytes : SigningKey → Bytes
  pub verifying_key : SigningKey → VerifyingKey
  pub sign : SigningKey → Bytes → Bytes
  -- `VerifyingKey::{from_bytes, to_bytes, verify(..).is_ok()}`
  pub key_from_bytes : Bytes → Option VerifyingKey
  pub key_to_bytes : VerifyingKey → Bytes
  pub verify : VerifyingKey → Bytes → Bytes → Bool

-- A 32-byte or 64-byte array: `[u8; n]`.
pub record IsArray (n : ℕ) (bs : Bytes) : Type 0 where
  pub len : length bs ≡ n
  pub bytes : AreBytes bs

pub record CryptoLaws (c : Crypto) : Type 0 where
  pub hash-IsArray : (m : Bytes) → IsArray 32 (c.hash m)
  pub keyed_hash-IsArray : (k m : Bytes) → IsArray 32 (c.keyed_hash k m)
  pub sign-IsArray : (k : c.SigningKey) (m : Bytes) → IsArray 64 (c.sign k m)
  pub key_to_bytes-IsArray : (k : c.VerifyingKey) → IsArray 32 (c.key_to_bytes k)
  pub key_from_to_bytes : (k : c.VerifyingKey) → c.key_from_bytes (c.key_to_bytes k) ≡ some k
  pub verify-sign :
      (k : c.SigningKey) (m : Bytes) → c.verify (c.verifying_key k) m (c.sign k m) ≡ true

-- Two different messages with one hash. Binding theorems end in "or here is a collision".
pub record Collision (c : Crypto) : Type 0 where
  pub left : Bytes
  pub right : Bytes
  pub differ : left ≢ right
  pub same_hash : c.hash left ≡ c.hash right
