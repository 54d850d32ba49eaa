-- ===== src/Claims/Fields.antt =====
-- crates/aion-trust-claims/src/fields.rs: a body as its ordered, salted Merkle leaves.
pub mod Keys
pub mod Leaves
use aion_trust.Prelude.{
  ℕ, suc, ◌^◌, not, List, [], ◌∷◌, ltb, if◌then◌else◌, filter, Bytes, Text, codes, bytes_eq, Result,
  ok_or, ok, err, ◌>>=◌,
}
use aion_trust.Prelude.Map.{Map, collect}
use aion_trust.Crypto.{Crypto}
use aion_trust.Json.{Json}
use aion_trust.Encoding.Writer.{new, field, u32, into_bytes, ◌▸◌}
use aion_trust.Merkle.{field_leaf_domain, field_leaf_hash}
use aion_trust.Claims.Reject.{ClaimReject, malformed}
use aion_trust.Claims.Bodies.{ClaimBody, object}

abbrev pub claim_type_tag : Text
claim_type_tag = codes "claim_type"

-- `u32::try_from(n).map_err(|_| ClaimReject::Malformed)`.
unfoldable pub try_u32 : ℕ → Result ClaimReject ℕ
try_u32 n = if ltb n (2 ^ 32) then ok n else err malformed

unfoldable pub derive_field_salt : Crypto → Bytes → ℕ → Text → Bytes
unfolding new field u32 into_bytes
derive_field_salt c master_salt index key =
    c.keyed_hash master_salt (new field_leaf_domain ▸ u32 index ▸ field key ▸ into_bytes)

module _ (j : Json) where
  pub record BodyLeaf : Type 0 where
    pub key : Text
    pub value : j.Value
    pub salt : Bytes
    pub hash : Bytes

  unfoldable pub ordered_fields : ClaimBody → Map j.Value
  unfolding collect object
  ordered_fields body = collect (filter (λ e. not (bytes_eq e.0 claim_type_tag)) (object j body))

  -- The loop of `body_leaves`, from the leaf `index` on.
  unfoldable pub leaves_from : Crypto → Bytes → ℕ → Map j.Value → Result ClaimReject (List BodyLeaf)
  unfolding try_u32 derive_field_salt field_leaf_hash
  leaves_from c master_salt index [] = ok []
  leaves_from c master_salt index ((key, value) ∷ rest) = do
    i ← try_u32 index
    jcs_value ← ok_or (j.to_jcs_bytes value) malformed
    let salt = derive_field_salt c master_salt i key
    let hash = field_leaf_hash c i key salt jcs_value
    leaves ← leaves_from c master_salt (suc index) rest
    ok (record { key = key; value = value; salt = salt; hash = hash } ∷ leaves)

  unfoldable pub body_leaves : Crypto → Bytes → ClaimBody → Result ClaimReject (List BodyLeaf)
  unfolding leaves_from ordered_fields
  body_leaves c master_salt body = leaves_from c master_salt 0 (ordered_fields body)
