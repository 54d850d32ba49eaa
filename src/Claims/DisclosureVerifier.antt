-- ===== src/Claims/DisclosureVerifier.antt =====
-- crates/aion-trust-claims/src/disclosure.rs, the verifier's side: the signature, the proofs of the
-- revealed fields and of the reliance leaves.
pub mod Fields
pub mod Reliance
pub mod Sound
pub mod Binding
pub mod HonestFields
pub mod RelianceLeaves
pub mod HonestReliance
pub mod Genuine
pub mod RoundTrip
pub mod Total
pub mod Selected
pub mod NoOmission
use aion_trust.Prelude.{
  ℕ, Bool, true, false, not, ◌&&◌, ◌||◌, Option, none, some, List, [], ◌∷◌, leb, ◌==◌,
  if◌then◌else◌, length, get_elem?, set, get_or, replicate, Bytes, Text, bytes_eq, Result, ok_or,
  map_err, guard, ok, err, ◌>>=◌, ◌>>◌,
}
use aion_trust.Prelude.Map.{Map, get, insert, contains_key}
use aion_trust.Crypto.{Crypto}
use aion_trust.Json.{Json}
use aion_trust.Encoding.Hex.{to_hex, decode_array}
use aion_trust.Identity.{Did, ClaimId, did_from_key, claim_id_from_signing_bytes}
use aion_trust.Merkle.{field_leaf_hash, reliance_leaf_hash, audit_path, root_from_path}
use aion_trust.Claims.Reject.{
  ClaimReject, issuer_key_mismatch, body_tampered, claim_id_mismatch, bad_signature, missing_field,
  relies_tampered, malformed,
}
use aion_trust.Claims.Bodies.{category, schema_id, field_keys_for_category}
use aion_trust.Claims.Fields.{BodyLeaf, body_leaves, try_u32}
use aion_trust.Claims.Reliance.{ReliesLeaf, reliance_leaves}
use aion_trust.Claims.Claim.{Claim, Validity, signing_bytes}
use aion_trust.Claims.Disclosure.{
  FieldSelector, RevealedReliance, encode_path, position_from, range_from, positions, RevealedField,
  DisclosedClaim, selected_indices, reveal, reveal_all, disclose_leaves, disclose_reliance, build,
  disclose, all, only,
}

unfoldable pub decode_path : List Text → Result ClaimReject (List Bytes)
unfolding decode_array
decode_path [] = ok []
decode_path (h ∷ hexes) = do
  hash ← map_err (decode_array 32 h) malformed
  path ← decode_path hexes
  ok (hash ∷ path)

-- The loop over the required keys.
unfoldable pub contains_all {ℓ} : {V : Type ℓ} → Map V → List Text → Bool
unfolding get
contains_all proven [] = true
contains_all proven (key ∷ required) = contains_key key proven && contains_all proven required

module _ (j : Json) where
  pub data ProvenField : Type 0 where
    value : j.Value → ProvenField

  pub record VerifiedDisclosure : Type 0 where
    pub claim_id : ClaimId
    pub subject_id : Did
    pub issuer_id : Did
    pub validity : Validity
    pub category : Text
    pub fields : Map ProvenField
    pub reliance : List ClaimId

  -- `VerifiedDisclosure::value`.
  unfoldable pub value_of : VerifiedDisclosure → Text → Option j.Value
  unfolding get
  value_of d key = elim (get key d.fields) [ some (value v) ↦ some v | none ↦ none ]

module _ (c : Crypto) (j : Json) where
  unfoldable pub check_signature : DisclosedClaim j → c.VerifyingKey → Result ClaimReject Bytes
  unfolding did_from_key decode_array signing_bytes claim_id_from_signing_bytes bytes_eq
  check_signature d issuer_vk = do
    guard (bytes_eq (did_from_key c issuer_vk) d.issuer_id) issuer_key_mismatch
    body_root ← map_err (decode_array 32 d.body_root) malformed
    reliance_root ← map_err (decode_array 32 d.reliance_root) malformed
    let signing = signing_bytes d.subject_id d.issuer_id d.category d.schema_id d.validity (record {
      body_root = body_root;
      field_count = d.field_count;
      reliance_root = reliance_root;
      reliance_count = d.reliance_count;
    })
    guard (bytes_eq (claim_id_from_signing_bytes c signing) d.claim_id) claim_id_mismatch
    sig ← map_err (decode_array 64 d.issuer_signature) malformed
    guard (c.verify issuer_vk signing sig) bad_signature
    ok body_root

  -- `prove_field`; `field_count` is the claim's.
  unfoldable pub prove_field :
      ℕ → List Text → Bytes → RevealedField j → Result ClaimReject (Unit {0})
  unfolding decode_array field_leaf_hash decode_path root_from_path bytes_eq
  prove_field field_count expected body_root f = do
    expected_key ← ok_or (get_elem? expected f.index) body_tampered
    guard (bytes_eq expected_key f.key) body_tampered
    salt ← map_err (decode_array 32 f.salt) malformed
    jcs ← ok_or (j.to_jcs_bytes f.value) malformed
    path ← decode_path f.audit_path
    root ←
        map_err
          (root_from_path c (field_leaf_hash c f.index f.key salt jcs) f.index field_count path)
          body_tampered
    guard (bytes_eq root body_root) body_tampered

  -- The loop of `verify_with_required` over the revealed fields; `proven` so far.
  unfoldable pub prove_fields :
      ℕ
      → List Text
      → Bytes
      → List (RevealedField j)
      → Map (ProvenField j)
      → Result ClaimReject (Map (ProvenField j))
  unfolding prove_field insert
  prove_fields field_count expected body_root [] proven = ok proven
  prove_fields field_count expected body_root (f ∷ fields) proven = do
    prove_field field_count expected body_root f
    prove_fields field_count expected body_root fields (insert f.key (value f.value) proven)

  -- One round of the loop of `verify_reliance` behind its test of the index: the leaf's proof.
  unfoldable pub prove_reliance : ℕ → Bytes → RevealedReliance → Result ClaimReject (Unit {0})
  unfolding decode_array reliance_leaf_hash decode_path root_from_path bytes_eq
  prove_reliance count root r = do
    salt ← map_err (decode_array 32 r.salt) malformed
    kind_commit ← map_err (decode_array 32 r.kind_commit) malformed
    path ← decode_path r.audit_path
    got ←
        map_err
          (root_from_path c (reliance_leaf_hash c r.index salt r.from_claim_id kind_commit) r.index
            count path)
          relies_tampered
    guard (bytes_eq got root) relies_tampered

  -- The loop of `verify_reliance`; `seen` has a flag for each index.
  unfoldable pub prove_all_reliance :
      ℕ → Bytes → List Bool → List RevealedReliance → Result ClaimReject (List ClaimId)
  unfolding prove_reliance
  prove_all_reliance count root seen [] = ok []
  prove_all_reliance count root seen (r ∷ reliance) = do
    guard (not (leb count r.index || get_or seen r.index true)) relies_tampered
    prove_reliance count root r
    ids ← prove_all_reliance count root (set seen r.index true) reliance
    ok (r.from_claim_id ∷ ids)

  unfoldable pub verify_reliance : DisclosedClaim j → Result ClaimReject (List ClaimId)
  unfolding decode_array prove_all_reliance replicate
  verify_reliance d =
      if length d.reliance == d.reliance_count
      then (if d.reliance_count == 0 then ok [] else do
        root ← map_err (decode_array 32 d.reliance_root) malformed
        prove_all_reliance d.reliance_count root (replicate d.reliance_count false) d.reliance)
      else err relies_tampered

  -- `verify_with_required`.
  unfoldable pub verify_with_required :
      DisclosedClaim j → c.VerifyingKey → List Text → Result ClaimReject (VerifiedDisclosure j)
  unfolding check_signature field_keys_for_category prove_fields verify_reliance contains_all
  verify_with_required d issuer_vk required = do
    body_root ← check_signature d issuer_vk
    expected ← ok_or (field_keys_for_category d.category) malformed
    guard (d.field_count == length expected) body_tampered
    proven ← prove_fields d.field_count expected body_root d.fields []
    guard (contains_all proven required) missing_field
    reliance ← verify_reliance d
    ok (record {
      claim_id = d.claim_id;
      subject_id = d.subject_id;
      issuer_id = d.issuer_id;
      validity = d.validity;
      category = d.category;
      fields = proven;
      reliance = reliance;
    })

  unfoldable pub verify :
      DisclosedClaim j → c.VerifyingKey → Result ClaimReject (VerifiedDisclosure j)
  unfolding verify_with_required
  verify d issuer_vk = verify_with_required d issuer_vk []
