-- ===== src/Claims/Presentation.antt =====
-- crates/aion-trust-claims/src/presentation.rs, the holder's side: the subject-signed bundle of
-- disclosed claims, and the issuer directory.
use aion_trust.Prelude.{false, List, [], ◌∷◌, Bytes, Text, codes}
use aion_trust.Prelude.Map.{Map, get, insert}
use aion_trust.Crypto.{Crypto}
use aion_trust.Json.{Json}
use aion_trust.Encoding.Writer.{SigningWriter, new, field, int, into_bytes, ◌▸◌}
use aion_trust.Encoding.Hex.{to_hex}
use aion_trust.Identity.{Did, Timestamp, did_from_key, identity_did}
use aion_trust.Claims.Disclosure.{DisclosedClaim}
use aion_trust.Claims.Anchor.{TrustAnchor, default_status}

abbrev pub pres_domain : Bytes
pres_domain = codes "aion-trust/presentation/v1"

module _ (c : Crypto) (j : Json) where
  pub record Presentation : Type 0 where
    pub presentation_id : Text
    pub subject_id : Did
    pub subject_key : Text
    pub audience : Did
    pub purpose : Text
    pub nonce : Text
    pub issued_at : Timestamp
    pub expires_at : Timestamp
    pub claims : List (DisclosedClaim j)
    pub subject_signature : Text

  -- The loop over the claims in `pres_signing_bytes`.
  unfoldable pub write_claims : List (DisclosedClaim j) → SigningWriter → SigningWriter
  unfolding field
  write_claims [] w = w
  write_claims (claim ∷ claims) w = write_claims claims (w ▸ field claim.claim_id)

  unfoldable pub pres_signing_bytes :
      Did → Did → Text → Bytes → Timestamp → Timestamp → List (DisclosedClaim j) → Bytes
  unfolding new field int into_bytes write_claims
  pres_signing_bytes subject audience purpose nonce issued_at expires_at claims =
      new pres_domain
      ▸ field subject
      ▸ field audience
      ▸ field purpose
      ▸ field nonce
      ▸ int issued_at
      ▸ int expires_at
      ▸ write_claims claims
      ▸ into_bytes

  unfoldable pub build_presentation :
      c.SigningKey
      → Did
      → Text
      → Bytes
      → Timestamp
      → Timestamp
      → List (DisclosedClaim j)
      → Presentation
  unfolding pres_signing_bytes to_hex identity_did
  build_presentation subject audience purpose nonce issued_at expires_at claims =
      let signing =
        pres_signing_bytes (identity_did c subject) audience purpose nonce issued_at expires_at
          claims in
      record {
        presentation_id = to_hex (c.hash signing);
        subject_id = identity_did c subject;
        subject_key = to_hex (c.key_to_bytes (c.verifying_key subject));
        audience = audience;
        purpose = purpose;
        nonce = to_hex nonce;
        issued_at = issued_at;
        expires_at = expires_at;
        claims = claims;
        subject_signature = to_hex (c.sign subject signing);
      }

  -- `IssuerDirectory`: recognized keys under the dids that they derive.
  pub record IssuerDirectory : Type 0 where
    pub keys : Map c.VerifyingKey

  unfoldable pub register : c.VerifyingKey → IssuerDirectory → IssuerDirectory
  unfolding insert did_from_key
  register vk dir = record { keys = insert (did_from_key c vk) vk dir.keys }

  unfoldable pub directory_anchor : IssuerDirectory → TrustAnchor c
  unfolding get default_status
  directory_anchor dir = record {
    issuer_key = λ issuer. get issuer dir.keys;
    standing = λ issuer category now. record { accredited = false; accreditation_required = false };
    is_revoked = λ claim_id now. false;
    status = default_status (λ claim_id now. false);
  }
