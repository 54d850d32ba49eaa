-- ===== src/Identity.antt =====
-- crates/aion-trust-core/src/id.rs, identity.rs and time.rs: dids and claim ids, the keypair of an
-- identity, timestamps. The newtypes over a string are the string.
use aion_trust.Prelude.{
  ◌+◌, ◌-◌, ◌^◌, ◌++◌, leb, if◌then◌else◌, take, Bytes, Text, codes, Result, ok_or, ◌>>=◌,
}
use aion_trust.Prelude.Int.{ℤ, pos_part, pos_part, neg_part, neg_part, sub_ℕ, sub_ℕ, pos, negsuc}
use aion_trust.Crypto.{Crypto}
use aion_trust.Encoding.Hex.{TrustError, crypto, to_hex, decode_array}

abbrev pub Did : Type 0
Did = Text

abbrev pub ClaimId : Type 0
ClaimId = Text

-- Unix seconds, an `i64`.
abbrev pub Timestamp : Type 0
Timestamp = ℤ

-- `i64::saturating_add`.
unfoldable pub plus_seconds : Timestamp → ℤ → Timestamp
plus_seconds t seconds =
    let sum = sub_ℕ (pos_part t + pos_part seconds) (neg_part t + neg_part seconds) in
    if leb (2 ^ 63) (pos_part sum)
    then pos (2 ^ 63 - 1)
    else if leb (2 ^ 63 + 1) (neg_part sum)
    then negsuc (2 ^ 63 - 1)
    else sum

module _ (c : Crypto) where
  -- `Did::from_key`: "did:aion:" and the hex of the first 24 bytes of the key's hash.
  unfoldable pub did_from_key : c.VerifyingKey → Did
  unfolding to_hex
  did_from_key vk = codes "did:aion:" ++ to_hex (take 24 (c.hash (c.key_to_bytes vk)))

  -- `ClaimId::from_signing_bytes`.
  unfoldable pub claim_id_from_signing_bytes : Bytes → ClaimId
  unfolding to_hex
  claim_id_from_signing_bytes bytes = to_hex (c.hash bytes)

  -- `Identity` is its signing key; `Identity::did`.
  unfoldable pub identity_did : c.SigningKey → Did
  unfolding did_from_key
  identity_did id = did_from_key (c.verifying_key id)

  -- `Identity::from_secret_hex`: a malformed key is an error of the crypto crate.
  unfoldable pub identity_from_secret_hex : Text → Result TrustError c.SigningKey
  unfolding decode_array
  identity_from_secret_hex hex = do
    bytes ← decode_array 32 hex
    ok_or (c.signing_key_from_bytes bytes) crypto

  unfoldable pub secret_hex : c.SigningKey → Text
  unfolding to_hex
  secret_hex id = to_hex (c.signing_key_to_bytes id)

  unfoldable pub verifying_key_from_hex : Text → Result TrustError c.VerifyingKey
  unfolding decode_array
  verifying_key_from_hex hex = do bytes ← decode_array 32 hex; ok_or (c.key_from_bytes bytes) crypto
