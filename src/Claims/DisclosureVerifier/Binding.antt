-- ===== src/Claims/DisclosureVerifier/Binding.antt =====
-- About `prove_field` of crates/aion-trust-claims/src/disclosure.rs against the leaves of fields.rs:
-- what a body root binds.
use aion_trust.Prelude.{◌≡◌, some, Bytes}
use aion_trust.Crypto.{Crypto, CryptoLaws}
use aion_trust.Json.{Json}
use aion_trust.Encoding.Writer.Injective.{Fits}

module _ (c : Crypto) (laws : CryptoLaws c) (j : Json) where
  -- The canonical form of the value, if it has one, is shorter than 2^32 bytes.
  abbrev pub IsShort : j.Value → Type 0
  IsShort v = (jcs : Bytes) → j.to_jcs_bytes v ≡ some jcs → Fits jcs
