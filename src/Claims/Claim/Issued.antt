-- ===== src/Claims/Claim/Issued.antt =====
-- About `issue_with_reliance` and `verify` of crates/aion-trust-claims/src/claim.rs.
use aion_trust.Prelude.{◌≡◌, refl, List, ==_iff, Bytes, bytes_eq_refl, >>=-eq-ok, ok}
use aion_trust.Crypto.{Crypto, CryptoLaws, IsArray}
use aion_trust.Json.{Json}
use aion_trust.Encoding.Hex.{to_hex}
use aion_trust.Encoding.Hex.RoundTrip.{decode_array-to_hex}
use aion_trust.Identity.{Did, identity_did, claim_id_from_signing_bytes}
use aion_trust.Claims.Bodies.{ClaimBody, category, schema_id}
use aion_trust.Claims.Reliance.{ReliesOn, reliance_commitment}
use aion_trust.Claims.Claim.{
  Claim, ClaimCommit, Validity, Draws, random_salt, body_commitment, signing_bytes, sign_claim,
  issue_with_reliance, verify,
}

module _ (c : Crypto) (j : Json) where
  -- The two commitments behind an issued claim.
  issue_parts :
      (draws : Draws) (issuer : c.SigningKey) (subject : Did) (validity : Validity)
      (body : ClaimBody) (reliance : List ReliesOn) {claim : Claim}
      → issue_with_reliance c j draws issuer subject validity body reliance ≡ ok claim
      → (commit : ClaimCommit) × (body_commitment c j (random_salt c draws) body
          ≡ ok (commit.body_root, commit.field_count))
        × (reliance_commitment c (random_salt c draws) reliance
            ≡ ok (commit.reliance_root, commit.reliance_count))
        × (claim
            ≡ sign_claim c j (random_salt c draws) issuer subject validity body reliance commit)
  unfolding issue_with_reliance
  issue_parts draws issuer subject validity body reliance e =
      let ((body_root, field_count), e1, e') =
        >>=-eq-ok (body_commitment c j (random_salt c draws) body) _ e in
      let ((reliance_root, reliance_count), e2, e3) =
        >>=-eq-ok (reliance_commitment c (random_salt c draws) reliance) _ e' in
      (
        record {
          body_root = body_root;
          field_count = field_count;
          reliance_root = reliance_root;
          reliance_count = reliance_count;
        },
        e1,
        e2,
        cc e3,
      )

  random_salt-IsArray : (laws : CryptoLaws c) (draws : Draws) → IsArray 32 (random_salt c draws)
  unfolding random_salt
  random_salt-IsArray laws draws = laws.hash-IsArray _

  verify-sign_claim :
      (laws : CryptoLaws c) (master_salt : Bytes) (issuer : c.SigningKey) (subject : Did)
      (validity : Validity) (body : ClaimBody) (reliance : List ReliesOn) (commit : ClaimCommit)
      → IsArray 32 master_salt
      → body_commitment c j master_salt body ≡ ok (commit.body_root, commit.field_count)
      → reliance_commitment c master_salt reliance
        ≡ ok (commit.reliance_root, commit.reliance_count)
      → (let claim = sign_claim c j master_salt issuer subject validity body reliance commit in
          verify c j claim (c.verifying_key issuer) ≡ ok (record { claim = claim }))
  unfolding verify sign_claim identity_did
  verify-sign_claim laws master_salt issuer subject validity body reliance commit salt e1 e2 =
      let signing =
        signing_bytes subject (identity_did c issuer) (category body) (schema_id body) validity
          commit in
      rw
        (
          bytes_eq_refl (identity_did c issuer),
          decode_array-to_hex 32 salt,
          e1,
          e2,
          bytes_eq_refl (to_hex commit.body_root),
          bytes_eq_refl (to_hex commit.reliance_root),
          (==_iff commit.field_count commit.field_count).1 refl,
          (==_iff commit.reliance_count commit.reliance_count).1 refl,
          bytes_eq_refl (claim_id_from_signing_bytes c signing),
          decode_array-to_hex 64 (laws.sign-IsArray issuer signing),
          laws.verify-sign issuer signing,
        )
        refl

  -- An issued claim verifies: whatever the body, the reliance and the draws, if issuing a claim
  -- succeeds then verifying it under the issuer's key succeeds, with that claim.
  pub verify-issue_with_reliance :
      (laws : CryptoLaws c) (draws : Draws) (issuer : c.SigningKey) (subject : Did)
      (validity : Validity) (body : ClaimBody) (reliance : List ReliesOn) {claim : Claim}
      → issue_with_reliance c j draws issuer subject validity body reliance ≡ ok claim
      → verify c j claim (c.verifying_key issuer) ≡ ok (record { claim = claim })
  verify-issue_with_reliance laws draws issuer subject validity body reliance {claim} e =
      let (commit, e1, e2, q) = issue_parts draws issuer subject validity body reliance e in
      rw q (
        verify-sign_claim laws (random_salt c draws) issuer subject validity body reliance commit
          (random_salt-IsArray laws draws) e1 e2)
