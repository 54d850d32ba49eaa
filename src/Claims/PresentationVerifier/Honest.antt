-- ===== src/Claims/PresentationVerifier/Honest.antt =====
-- About `build_presentation` and the verifier of crates/aion-trust-claims/src/presentation.rs.
use aion_trust.Prelude.{◌≤◌, ◌≡◌, refl, true, false, List, length, All, Bytes, Text, AreBytes, ok}
use aion_trust.Prelude.Int.{◌≤ℤ◌, ◌≤ℤ◌}
use aion_trust.Crypto.{Crypto, CryptoLaws}
use aion_trust.Json.{Json}
use aion_trust.Encoding.Hex.{to_hex}
use aion_trust.Encoding.Hex.RoundTrip.{from_hex-to_hex, decode_array-to_hex}
use aion_trust.Identity.{Did, Timestamp, identity_did, verifying_key_from_hex}
use aion_trust.Claims.Anchor.{TrustAnchor}
use aion_trust.Claims.Disclosure.{DisclosedClaim}
use aion_trust.Claims.Report.{VerificationReport}
use aion_trust.Claims.Presentation.{pres_signing_bytes, build_presentation}
use aion_trust.Claims.PresentationVerifier.{min_nonce_len, verify_presentation}
use aion_trust.Claims.PresentationVerifier.Trusted.{IsTrusted}
use aion_trust.Claims.PresentationVerifier.Verdict.{IsAccepted, accepted_complete}

module _ (c : Crypto) (laws : CryptoLaws c) (j : Json) where
  verifying_key_from_hex-to_hex :
      (vk : c.VerifyingKey) → verifying_key_from_hex c (to_hex (c.key_to_bytes vk)) ≡ ok vk
  unfolding verifying_key_from_hex
  verifying_key_from_hex-to_hex vk =
      rw (decode_array-to_hex 32 (laws.key_to_bytes-IsArray vk), laws.key_from_to_bytes vk)

  build_presentation-IsAccepted :
      (subject : c.SigningKey) (audience : Did) (purpose : Text) (nonce : Bytes)
      (issued_at expires_at now : Timestamp) (claims : List (DisclosedClaim j))
      (anchor : TrustAnchor c)
      → AreBytes nonce
      → min_nonce_len ≤ length nonce
      → issued_at ≤ℤ now
      → now ≤ℤ expires_at
      → 1 ≤ length claims
      → All (IsTrusted c j anchor now (identity_did c subject)) claims
      → IsAccepted c j
          (build_presentation c j subject audience purpose nonce issued_at expires_at claims)
          audience
          now
          anchor
          false
  unfolding build_presentation identity_did
  build_presentation-IsAccepted subject audience purpose nonce issued_at expires_at now claims
        anchor bytes long started unexpired some_claim trusted =
      let signing =
        pres_signing_bytes c j (identity_did c subject) audience purpose nonce issued_at expires_at
          claims in
      record {
        subject_vk = c.verifying_key subject;
        nonce_bytes = nonce;
        sig = c.sign subject signing;
        key_decodes = verifying_key_from_hex-to_hex (c.verifying_key subject);
        nonce_decodes = from_hex-to_hex nonce bytes;
        sig_decodes = decode_array-to_hex 64 (laws.sign-IsArray subject signing);
        binds = refl;
        for_audience = refl;
        started = started;
        unexpired = unexpired;
        fresh = refl;
        long_nonce = long;
        some_claim = some_claim;
        signed = laws.verify-sign subject signing;
        claims_trusted = trusted;
      }

  -- An honest presentation is accepted: what a subject builds for an audience, with a nonce of at
  -- least 16 bytes and at least one claim, is accepted by that audience at every time within its
  -- validity, when its nonce was not seen and the anchor makes every claim trusted for that subject.
  pub verify-build_presentation :
      (subject : c.SigningKey) (audience : Did) (purpose : Text) (nonce : Bytes)
      (issued_at expires_at now : Timestamp) (claims : List (DisclosedClaim j))
      (anchor : TrustAnchor c)
      → AreBytes nonce
      → min_nonce_len ≤ length nonce
      → issued_at ≤ℤ now
      → now ≤ℤ expires_at
      → 1 ≤ length claims
      → All (IsTrusted c j anchor now (identity_did c subject)) claims
      → (r : VerificationReport) × (verify_presentation c j
            (build_presentation c j subject audience purpose nonce issued_at expires_at claims)
            audience
            now
            anchor
            false
          ≡ ok r)
        × (r.accepted ≡ true)
  verify-build_presentation subject audience purpose nonce issued_at expires_at now claims anchor
        bytes long started unexpired some_claim trusted =
      accepted_complete c j _ audience now anchor false (
        build_presentation-IsAccepted subject audience purpose nonce issued_at expires_at now claims
          anchor bytes long started unexpired some_claim trusted)
