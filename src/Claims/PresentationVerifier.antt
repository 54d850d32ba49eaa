-- ===== src/Claims/PresentationVerifier.antt =====
-- crates/aion-trust-claims/src/presentation.rs, the verifier's side: the checks of a presentation
-- and of each of its claims, the predicates, and the verdict.
pub mod Checks
pub mod Trusted
pub mod Answers
pub mod Verdict
pub mod Forgiven
pub mod Resolved
pub mod Unresolved
pub mod Amber
pub mod Honest
use aion_trust.Prelude.{
  ℕ, Bool, true, false, not, ◌&&◌, ◌||◌, Option, none, some, List, [], ◌∷◌, ◌++◌, leb, ◌==◌,
  if◌then◌else◌, length, any, Bytes, Text, bytes_eq, Result, ok, err, ◌>>=◌,
}
use aion_trust.Prelude.Int.{leb_ℤ, leb_ℤ}
use aion_trust.Prelude.Map.{keys}
use aion_trust.Crypto.{Crypto}
use aion_trust.Json.{Json}
use aion_trust.Encoding.Writer.{SigningWriter, new, field, int, into_bytes, ◌▸◌}
use aion_trust.Encoding.Hex.{TrustError, to_hex, from_hex, decode_array}
use aion_trust.Identity.{
  Did, ClaimId, Timestamp, did_from_key, identity_did, verifying_key_from_hex,
}
use aion_trust.Claims.Reject.{ClaimReject}
use aion_trust.Claims.Claim.{active_at}
use aion_trust.Claims.Disclosure.{DisclosedClaim}
use aion_trust.Claims.DisclosureVerifier.{VerifiedDisclosure, value_of, verify}
use aion_trust.Claims.Predicate.{PredicateRequest, evaluate}
use aion_trust.Claims.Anchor.{TrustAnchor, IssuerStanding, revoked, unresolvable, default_status}
use aion_trust.Claims.Report.{
  CheckName, is_reliance_resolvable, Check, check, VerificationReport, passes, is_soft, report_of,
  subject_id_binds_to_key, audience_matches_verifier, unexpired, nonce_fresh,
  nonce_sufficiently_long, discloses_at_least_one_claim, subject_signature_valid,
  claim_subject_matches_presenter, issuer_recognized, claim_authentic,
  field_proven_against_body_root, claim_within_validity, issuer_accredited, claim_not_revoked,
  reliance_intact, reliance_resolvable, predicate_satisfied, CheckName,
}
use aion_trust.Claims.Presentation.{
  pres_domain, Presentation, write_claims, pres_signing_bytes, build_presentation, IssuerDirectory,
  register, directory_anchor,
}

abbrev pub min_nonce_len : ℕ
min_nonce_len = 16

module _ (c : Crypto) (j : Json) where
  pub record ClaimOutcome : Type 0 where
    pub category : Text
    pub schema_id : Text
    pub verified : VerifiedDisclosure j
    pub fully_valid : Bool

  -- The loop over `verified.reliance()`: is some upstream claim revoked, is some unresolvable?
  unfoldable pub revoked_dep : TrustAnchor c → Timestamp → List ClaimId → Bool
  revoked_dep anchor now [] = false
  revoked_dep anchor now (dep ∷ deps) =
      elim (anchor.status dep now) [ revoked ↦ true | _ ↦ false ] || revoked_dep anchor now deps

  unfoldable pub unresolved_dep : TrustAnchor c → Timestamp → List ClaimId → Bool
  unresolved_dep anchor now [] = false
  unresolved_dep anchor now (dep ∷ deps) =
      elim (anchor.status dep now) [ unresolvable ↦ true | _ ↦ false ]
      || unresolved_dep anchor now deps

  -- A check for each proven field.
  unfoldable pub check_fields : List Text → List Check → List Check
  unfolding check
  check_fields [] checks = checks
  check_fields (key ∷ keys) checks =
      check_fields keys (check field_proven_against_body_root true checks)

  unfoldable pub check_standing : IssuerStanding → List Check → List Check
  unfolding check
  check_standing s checks =
      if s.accreditation_required then check issuer_accredited s.accredited checks else checks

  unfoldable pub check_reliance : List ClaimId → Bool → Bool → List Check → List Check
  unfolding check
  check_reliance [] revoked_dep unresolved_dep checks = checks
  check_reliance (dep ∷ deps) revoked_dep unresolved_dep checks =
      check reliance_resolvable (not unresolved_dep)
        (check reliance_intact (not revoked_dep) checks)

  -- `authenticated_claim_checks`: the checks so far with the new ones, and whether all trust
  -- checks of the claim passed.
  unfoldable pub authenticated_claim_checks :
      List Check
      → DisclosedClaim j
      → VerifiedDisclosure j
      → Timestamp
      → TrustAnchor c
      → List Check × Bool
  unfolding check check_fields check_standing check_reliance revoked_dep unresolved_dep active_at
  authenticated_claim_checks checks claim verified now anchor =
      let within = active_at verified.validity now in
      let standing = anchor.standing claim.issuer_id verified.category now in
      let accredited_ok = if standing.accreditation_required then standing.accredited else true in
      let not_revoked = not (anchor.is_revoked claim.claim_id now) in
      let revoked = revoked_dep anchor now verified.reliance in
      let unresolved = unresolved_dep anchor now verified.reliance in
      let authentic = check_fields (keys verified.fields) (check claim_authentic true checks) in
      let standing_checked =
        check_standing standing (check claim_within_validity within authentic) in
      let all_checks =
        check_reliance verified.reliance revoked unresolved
          (check claim_not_revoked not_revoked standing_checked) in
      (all_checks, within && accredited_ok && not_revoked && not revoked && not unresolved)

  -- The `match claim.verify(..)` of `verify_one_claim`.
  unfoldable pub judge_claim :
      List Check
      → DisclosedClaim j
      → Bool
      → Timestamp
      → TrustAnchor c
      → Result ClaimReject (VerifiedDisclosure j)
      → List Check × Option ClaimOutcome
  unfolding check authenticated_claim_checks
  judge_claim checks claim subject_ok now anchor (err reject) =
      (check claim_authentic false checks, none)
  judge_claim checks claim subject_ok now anchor (ok verified) =
      let (all_checks, trusted) = authenticated_claim_checks checks claim verified now anchor in
      (
        all_checks,
        some (record {
          category = claim.category;
          schema_id = claim.schema_id;
          verified = verified;
          fully_valid = subject_ok && trusted;
        }),
      )

  -- The `let Some(issuer_vk) = .. else` of `verify_one_claim`.
  unfoldable pub with_issuer :
      List Check
      → DisclosedClaim j
      → Bool
      → Timestamp
      → TrustAnchor c
      → Option c.VerifyingKey
      → List Check × Option ClaimOutcome
  unfolding check verify judge_claim
  with_issuer checks claim subject_ok now anchor none = (check issuer_recognized false checks, none)
  with_issuer checks claim subject_ok now anchor (some issuer_vk) =
      judge_claim checks claim subject_ok now anchor (verify c j claim issuer_vk)

  unfoldable pub verify_one_claim :
      List Check
      → DisclosedClaim j
      → Did
      → Timestamp
      → TrustAnchor c
      → List Check × Option ClaimOutcome
  unfolding check bytes_eq with_issuer
  verify_one_claim checks claim presenter now anchor =
      let subject_ok = bytes_eq claim.subject_id presenter in
      with_issuer (check claim_subject_matches_presenter subject_ok checks) claim subject_ok now
        anchor (anchor.issuer_key claim.issuer_id)

  abbrev pub add_outcome : Option ClaimOutcome → List ClaimOutcome → List ClaimOutcome
  add_outcome none outcomes = outcomes
  add_outcome (some o) outcomes = outcomes ++ o ∷ []

  -- The loop over the claims; `outcomes` so far.
  unfoldable pub verify_claims :
      List Check
      → List (DisclosedClaim j)
      → List ClaimOutcome
      → Did
      → Timestamp
      → TrustAnchor c
      → List Check × List ClaimOutcome
  unfolding verify_one_claim
  verify_claims checks [] outcomes presenter now anchor = (checks, outcomes)
  verify_claims checks (claim ∷ claims) outcomes presenter now anchor =
      let (checks', outcome) = verify_one_claim checks claim presenter now anchor in
      verify_claims checks' claims (add_outcome outcome outcomes) presenter now anchor

  -- `.unwrap_or(false)`.
  abbrev pub or_false : Result ClaimReject Bool → Bool
  or_false (ok b) = b
  or_false (err e) = false

  -- The `match o.verified.value(..)` of `predicate_holds`.
  unfoldable pub answers : PredicateRequest j → Option j.Value → Bool
  unfolding evaluate
  answers req none = false
  answers req (some value) = or_false (evaluate j req.op value req.bound)

  unfoldable pub predicate_holds : PredicateRequest j → ClaimOutcome → Bool
  unfolding bytes_eq value_of answers
  predicate_holds req o =
      o.fully_valid
      && bytes_eq o.category req.category
      && elim req.scale_version [ none ↦ true | some scale ↦ bytes_eq o.schema_id scale ]
      && answers req (value_of j o.verified req.field)

  unfoldable pub evaluate_predicates :
      List Check → List (PredicateRequest j) → List ClaimOutcome → List Check
  unfolding check predicate_holds
  evaluate_predicates checks [] outcomes = checks
  evaluate_predicates checks (req ∷ predicates) outcomes =
      evaluate_predicates (check predicate_satisfied (any (predicate_holds req) outcomes) checks)
        predicates outcomes

  -- The seven checks of the presentation itself.
  unfoldable pub binding_checks :
      Presentation c j → c.VerifyingKey → Bytes → Bytes → Did → Timestamp → Bool → List Check
  unfolding check did_from_key bytes_eq pres_signing_bytes
  binding_checks p subject_vk nonce_bytes sig audience now nonce_already_seen =
      let signing =
        pres_signing_bytes c j p.subject_id p.audience p.purpose nonce_bytes p.issued_at
          p.expires_at p.claims in
      check subject_signature_valid (c.verify subject_vk signing sig) (
        check discloses_at_least_one_claim (not (length p.claims == 0)) (
          check nonce_sufficiently_long (leb min_nonce_len (length nonce_bytes)) (
            check nonce_fresh (not nonce_already_seen) (
              check unexpired (leb_ℤ p.issued_at now && leb_ℤ now p.expires_at) (
                check audience_matches_verifier (bytes_eq p.audience audience) (
                  check subject_id_binds_to_key (bytes_eq (did_from_key c subject_vk) p.subject_id)
                    []))))))

  -- The checks of `verify_presentation_with_predicates`, behind its three decoding steps.
  unfoldable pub verdict :
      Presentation c j
      → Did
      → Timestamp
      → TrustAnchor c
      → Bool
      → List (PredicateRequest j)
      → c.VerifyingKey
      → Bytes
      → Bytes
      → VerificationReport
  unfolding binding_checks verify_claims evaluate_predicates report_of
  verdict p audience now anchor nonce_already_seen predicates subject_vk nonce_bytes sig =
      let bound = binding_checks p subject_vk nonce_bytes sig audience now nonce_already_seen in
      let (checked, outcomes) = verify_claims bound p.claims [] p.subject_id now anchor in
      report_of (evaluate_predicates checked predicates outcomes)

  unfoldable pub verify_presentation_with_predicates :
      Presentation c j
      → Did
      → Timestamp
      → TrustAnchor c
      → Bool
      → List (PredicateRequest j)
      → Result TrustError VerificationReport
  unfolding verifying_key_from_hex from_hex decode_array verdict
  verify_presentation_with_predicates p audience now anchor nonce_already_seen predicates = do
    subject_vk ← verifying_key_from_hex c p.subject_key
    nonce_bytes ← from_hex p.nonce
    sig ← decode_array 64 p.subject_signature
    ok (verdict p audience now anchor nonce_already_seen predicates subject_vk nonce_bytes sig)

  unfoldable pub verify_presentation :
      Presentation c j
      → Did
      → Timestamp
      → TrustAnchor c
      → Bool
      → Result TrustError VerificationReport
  unfolding verify_presentation_with_predicates
  verify_presentation p audience now anchor nonce_already_seen =
      verify_presentation_with_predicates p audience now anchor nonce_already_seen []
