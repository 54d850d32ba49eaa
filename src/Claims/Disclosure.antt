-- ===== src/Claims/Disclosure.antt =====
-- crates/aion-trust-claims/src/disclosure.rs, the holder's side, and `Claim::disclose` of claim.rs:
-- a chosen subset of a claim's fields with their proofs.
use aion_trust.Prelude.{
  ℕ, zero, suc, Option, none, some, List, [], ◌∷◌, map, if◌then◌else◌, length, get_elem?, Bytes,
  Text, bytes_eq, Result, ok_or, map_err, ok, err, ◌>>=◌,
}
use aion_trust.Crypto.{Crypto}
use aion_trust.Json.{Json}
use aion_trust.Encoding.Hex.{to_hex, decode_array}
use aion_trust.Identity.{Did, ClaimId}
use aion_trust.Merkle.{audit_path}
use aion_trust.Claims.Reject.{ClaimReject, malformed}
use aion_trust.Claims.Bodies.{category, schema_id}
use aion_trust.Claims.Fields.{BodyLeaf, body_leaves, try_u32}
use aion_trust.Claims.Reliance.{ReliesLeaf, reliance_leaves}
use aion_trust.Claims.Claim.{Claim, Validity}

pub data FieldSelector : Type 0 where
  all : FieldSelector
  only : List Text → FieldSelector

pub record RevealedReliance : Type 0 where
  pub index : ℕ
  pub from_claim_id : ClaimId
  pub salt : Text
  pub kind_commit : Text
  pub audit_path : List Text

-- `audit_path.iter().map(to_hex)`.
unfoldable pub encode_path : List Bytes → List Text
unfolding to_hex
encode_path = map to_hex

-- `iter().position(|l| &l.key == key)`, from position `i` on.
unfoldable pub position_from : ℕ → Text → List Text → Option ℕ
position_from i key [] = none
position_from i key (k ∷ ks) = if bytes_eq k key then some i else position_from (suc i) key ks

-- The range `0..n`, from `i` on.
unfoldable pub range_from : ℕ → ℕ → List ℕ
range_from i zero = []
range_from i (suc n) = i ∷ range_from (suc i) n

unfoldable pub positions : List Text → List Text → Result ClaimReject (List ℕ)
unfolding position_from
positions known [] = ok []
positions known (key ∷ keys) = do
  at ← ok_or (position_from 0 key known) malformed
  indices ← positions known keys
  ok (at ∷ indices)

module _ (j : Json) where
  pub record RevealedField : Type 0 where
    pub key : Text
    pub index : ℕ
    pub salt : Text
    pub value : j.Value
    pub audit_path : List Text

  pub record DisclosedClaim : Type 0 where
    pub claim_id : ClaimId
    pub subject_id : Did
    pub issuer_id : Did
    pub validity : Validity
    pub category : Text
    pub schema_id : Text
    pub body_root : Text
    pub field_count : ℕ
    pub reliance_root : Text
    pub reliance_count : ℕ
    pub issuer_signature : Text
    pub fields : List RevealedField
    pub reliance : List RevealedReliance

  unfoldable pub selected_indices : List (BodyLeaf j) → FieldSelector → Result ClaimReject (List ℕ)
  unfolding range_from positions
  selected_indices leaves all = ok (range_from 0 (length leaves))
  selected_indices leaves (only []) = err malformed
  selected_indices leaves (only (k ∷ ks)) =
      positions (map (λ (l : BodyLeaf j). l.key) leaves) (k ∷ ks)

module _ (c : Crypto) (j : Json) where
  -- One round of the loop of `build`: the field of the leaf at `at`.
  unfoldable pub reveal : List (BodyLeaf j) → ℕ → Result ClaimReject (RevealedField j)
  unfolding try_u32 audit_path to_hex encode_path
  reveal leaves at = do
    leaf ← ok_or (get_elem? leaves at) malformed
    path ← map_err (audit_path c (map (λ (l : BodyLeaf j). l.hash) leaves) at) malformed
    index ← try_u32 at
    ok (record {
      key = leaf.key;
      index = index;
      salt = to_hex leaf.salt;
      value = leaf.value;
      audit_path = encode_path path;
    })

  unfoldable pub reveal_all :
      List (BodyLeaf j) → List ℕ → Result ClaimReject (List (RevealedField j))
  unfolding reveal
  reveal_all leaves [] = ok []
  reveal_all leaves (at ∷ indices) = do
    f ← reveal leaves at
    fields ← reveal_all leaves indices
    ok (f ∷ fields)

  -- The loop of `disclose_reliance`, over the leaves still to disclose; `hashes` are of all leaves.
  unfoldable pub disclose_leaves :
      List Bytes → List ReliesLeaf → Result ClaimReject (List RevealedReliance)
  unfolding audit_path to_hex encode_path
  disclose_leaves hashes [] = ok []
  disclose_leaves hashes (l ∷ leaves) = do
    path ← map_err (audit_path c hashes l.index) malformed
    out ← disclose_leaves hashes leaves
    ok (
        record {
          index = l.index;
          from_claim_id = l.from_claim_id;
          salt = to_hex l.salt;
          kind_commit = to_hex l.kind_commit;
          audit_path = encode_path path;
        }
        ∷ out)

  unfoldable pub disclose_reliance : List ReliesLeaf → Result ClaimReject (List RevealedReliance)
  unfolding disclose_leaves
  disclose_reliance leaves = disclose_leaves (map (λ (l : ReliesLeaf). l.hash) leaves) leaves

  -- `DisclosedClaim::build`.
  unfoldable pub build :
      Claim
      → List (BodyLeaf j)
      → List ReliesLeaf
      → FieldSelector
      → Result ClaimReject (DisclosedClaim j)
  unfolding selected_indices reveal_all disclose_reliance category schema_id
  build claim leaves reliance_leaves selector = do
    indices ← selected_indices j leaves selector
    fields ← reveal_all leaves indices
    reliance ← disclose_reliance reliance_leaves
    ok (record {
      claim_id = claim.claim_id;
      subject_id = claim.subject_id;
      issuer_id = claim.issuer_id;
      validity = claim.validity;
      category = category claim.body;
      schema_id = schema_id claim.body;
      body_root = claim.body_root;
      field_count = claim.field_count;
      reliance_root = claim.reliance_root;
      reliance_count = claim.reliance_count;
      issuer_signature = claim.issuer_signature;
      fields = fields;
      reliance = reliance;
    })

  -- `Claim::disclose`.
  unfoldable pub disclose : Claim → FieldSelector → Result ClaimReject (DisclosedClaim j)
  unfolding decode_array body_leaves reliance_leaves build
  disclose claim selector = do
    master_salt ← map_err (decode_array 32 claim.master_salt) malformed
    leaves ← body_leaves j c master_salt claim.body
    reliance ← reliance_leaves c master_salt claim.reliance
    build claim leaves reliance selector
