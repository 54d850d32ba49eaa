-- ===== src/Claims/Claim.antt =====
-- crates/aion-trust-claims/src/claim.rs: the claim that an issuer signs, and its verification.
-- `disclose` stands in Claims/Disclosure. The three draws of the CSPRNG behind `random_salt` are
-- arguments of the functions that make them.
pub mod Issued
pub mod Signed
use aion_trust.Prelude.{
  ℕ, Bool, true, ◌&&◌, Option, none, some, List, [], ◌++◌, map, ◌==◌, length, Bytes, Text, codes,
  bytes_eq, Result, map_err, guard, ok, ◌>>=◌, ◌>>◌,
}
use aion_trust.Prelude.Int.{leb_ℤ, leb_ℤ}
use aion_trust.Prelude.Map.{get}
use aion_trust.Crypto.{Crypto}
use aion_trust.Json.{Json}
use aion_trust.Encoding.Writer.{SigningWriter, new, field, int, u32, into_bytes, ◌▸◌}
use aion_trust.Encoding.Hex.{to_hex, decode_array}
use aion_trust.Identity.{
  Did, ClaimId, Timestamp, did_from_key, identity_did, claim_id_from_signing_bytes,
}
use aion_trust.Merkle.{merkle_root}
use aion_trust.Claims.Reject.{
  ClaimReject, issuer_key_mismatch, body_tampered, claim_id_mismatch, bad_signature,
  relies_tampered, malformed,
}
use aion_trust.Claims.Bodies.{ClaimBody, category, schema_id, object}
use aion_trust.Claims.Fields.{BodyLeaf, body_leaves, try_u32}
use aion_trust.Claims.Reliance.{ReliesOn, reliance_commitment}

abbrev pub claim_domain : Bytes
claim_domain = codes "aion-trust/claim/v1"

pub record Validity : Type 0 where
  pub from : Timestamp
  pub until : Option Timestamp

unfoldable pub active_at : Validity → Timestamp → Bool
active_at v now = leb_ℤ v.from now && elim v.until [ none ↦ true | some u ↦ leb_ℤ now u ]

pub record Claim : Type 0 where
  pub claim_id : ClaimId
  pub subject_id : Did
  pub issuer_id : Did
  pub validity : Validity
  pub body : ClaimBody
  pub master_salt : Text
  pub body_root : Text
  pub field_count : ℕ
  pub reliance : List ReliesOn
  pub reliance_root : Text
  pub reliance_count : ℕ
  pub issuer_signature : Text

pub record ClaimCommit : Type 0 where
  pub body_root : Bytes
  pub field_count : ℕ
  pub reliance_root : Bytes
  pub reliance_count : ℕ

-- The `match validity.until` of `signing_bytes`.
unfoldable pub write_until : Option Timestamp → SigningWriter → SigningWriter
unfolding field int
write_until (some t) w = w ▸ field (codes "until") ▸ int t
write_until none w = w ▸ field (codes "open")

unfoldable pub signing_bytes : Did → Did → Text → Text → Validity → ClaimCommit → Bytes
unfolding new field int u32 into_bytes write_until
signing_bytes subject issuer category schema_id validity commit =
    new claim_domain
    ▸ field subject
    ▸ field issuer
    ▸ field category
    ▸ field schema_id
    ▸ int validity.from
    ▸ write_until validity.until
    ▸ field commit.body_root
    ▸ u32 commit.field_count
    ▸ field commit.reliance_root
    ▸ u32 commit.reliance_count
    ▸ into_bytes

-- Three draws of `generate_nonce`.
pub record Draws : Type 0 where
  pub first : Bytes
  pub second : Bytes
  pub third : Bytes

unfoldable pub random_salt : Crypto → Draws → Bytes
random_salt c d = c.hash (d.first ++ (d.second ++ d.third))

module _ (c : Crypto) (j : Json) where
  unfoldable pub body_commitment : Bytes → ClaimBody → Result ClaimReject (Bytes × ℕ)
  unfolding body_leaves try_u32 merkle_root
  body_commitment master_salt body = do
    leaves ← body_leaves j c master_salt body
    let hashes = map (λ (l : BodyLeaf j). l.hash) leaves
    root ← map_err (merkle_root c hashes) malformed
    count ← try_u32 (length hashes)
    ok (root, count)

  -- The claim that `issue_with_reliance` builds once both commitments are made.
  unfoldable pub sign_claim :
      Bytes → c.SigningKey → Did → Validity → ClaimBody → List ReliesOn → ClaimCommit → Claim
  unfolding signing_bytes identity_did claim_id_from_signing_bytes to_hex category schema_id
  sign_claim master_salt issuer subject validity body reliance commit =
      let signing =
        signing_bytes subject (identity_did c issuer) (category body) (schema_id body) validity
          commit in
      record {
        claim_id = claim_id_from_signing_bytes c signing;
        subject_id = subject;
        issuer_id = identity_did c issuer;
        validity = validity;
        body = body;
        master_salt = to_hex master_salt;
        body_root = to_hex commit.body_root;
        field_count = commit.field_count;
        reliance = reliance;
        reliance_root = to_hex commit.reliance_root;
        reliance_count = commit.reliance_count;
        issuer_signature = to_hex (c.sign issuer signing);
      }

  unfoldable pub issue_with_reliance :
      Draws → c.SigningKey → Did → Validity → ClaimBody → List ReliesOn → Result ClaimReject Claim
  unfolding random_salt body_commitment reliance_commitment sign_claim
  issue_with_reliance draws issuer subject validity body reliance = do
    let master_salt = random_salt c draws
    (body_root, field_count) ← body_commitment master_salt body
    (reliance_root, reliance_count) ← reliance_commitment c master_salt reliance
    ok (
        sign_claim master_salt issuer subject validity body reliance (record {
          body_root = body_root;
          field_count = field_count;
          reliance_root = reliance_root;
          reliance_count = reliance_count;
        }))

  unfoldable pub issue :
      Draws → c.SigningKey → Did → Validity → ClaimBody → Result ClaimReject Claim
  unfolding issue_with_reliance
  issue draws issuer subject validity body =
      issue_with_reliance draws issuer subject validity body []

  -- `Claim::field_value`: one entry of the serialized body, for its holder.
  unfoldable pub field_value : Claim → Text → Option j.Value
  unfolding object get
  field_value claim key = get key (object j claim.body)

  -- A claim whose verification succeeded.
  pub record VerifiedClaim : Type 0 where
    pub claim : Claim

  -- `Claim::verify`.
  unfoldable pub verify : Claim → c.VerifyingKey → Result ClaimReject VerifiedClaim
  unfolding did_from_key decode_array body_commitment reliance_commitment to_hex signing_bytes
      claim_id_from_signing_bytes category schema_id bytes_eq
  verify claim issuer_vk = do
    guard (bytes_eq (did_from_key c issuer_vk) claim.issuer_id) issuer_key_mismatch
    master_salt ← map_err (decode_array 32 claim.master_salt) malformed
    (body_root, field_count) ← body_commitment master_salt claim.body
    guard (bytes_eq (to_hex body_root) claim.body_root && (field_count == claim.field_count))
        body_tampered
    (reliance_root, reliance_count) ← reliance_commitment c master_salt claim.reliance
    guard
        (bytes_eq (to_hex reliance_root) claim.reliance_root
          && (reliance_count == claim.reliance_count))
        relies_tampered
    let signing =
        signing_bytes claim.subject_id claim.issuer_id (category claim.body) (schema_id claim.body)
          claim.validity
          (record {
            body_root = body_root;
            field_count = field_count;
            reliance_root = reliance_root;
            reliance_count = reliance_count;
          })
    guard (bytes_eq (claim_id_from_signing_bytes c signing) claim.claim_id) claim_id_mismatch
    sig ← map_err (decode_array 64 claim.issuer_signature) malformed
    guard (c.verify issuer_vk signing sig) bad_signature
    ok (record { claim = claim })
