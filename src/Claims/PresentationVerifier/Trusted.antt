-- ===== src/Claims/PresentationVerifier/Trusted.antt =====
-- About the trust in one claim of a presentation (crates/aion-trust-claims/src/presentation.rs).
use aion_trust.Prelude.{
  ◌≡◌, refl, ◌∙◌, Bool, true, false, ◌&&◌, Option, none, some, List, [], ◌∷◌, arith, All, all,
  bytes_eq, bytes_eq→eq, bytes_eq_iff, Result, ok, err,
}
use aion_trust.Crypto.{Crypto}
use aion_trust.Json.{Json}
use aion_trust.Identity.{Did, ClaimId, Timestamp}
use aion_trust.Claims.Reject.{ClaimReject}
use aion_trust.Claims.Claim.{active_at}
use aion_trust.Claims.Anchor.{TrustAnchor, live}
use aion_trust.Claims.Disclosure.{DisclosedClaim}
use aion_trust.Claims.DisclosureVerifier.{VerifiedDisclosure, verify}
use aion_trust.Claims.Report.{Check, check, claim_subject_matches_presenter, passes}
use aion_trust.Claims.PresentationVerifier.{
  revoked_dep, unresolved_dep, authenticated_claim_checks, ClaimOutcome, judge_claim, with_issuer,
  verify_one_claim, add_outcome, verify_claims,
}
use aion_trust.Claims.PresentationVerifier.Checks.{and_assoc, is_valid, all-verify_one_claim}

module _ (c : Crypto) (j : Json) where
  -- Every relied-upon claim is live.
  abbrev pub AllLive : TrustAnchor c → Timestamp → List ClaimId → Type 0
  AllLive anchor now = All (λ dep. anchor.status dep now ≡ live)

  -- A claim that the presenter may rest on: its subject is the presenter, its issuer is known, its
  -- disclosure verifies under the issuer's key, it is within its validity, its issuer is
  -- accredited where its category requires that, it is not revoked, and nor is any claim below it.
  pub record IsTrusted (anchor : TrustAnchor c) (now : Timestamp) (presenter : Did)
      (claim : DisclosedClaim j) : Type 0 where
    pub issuer_vk : c.VerifyingKey
    pub verified : VerifiedDisclosure j
    pub subject : claim.subject_id ≡ presenter
    pub recognized : anchor.issuer_key claim.issuer_id ≡ some issuer_vk
    pub authentic : verify c j claim issuer_vk ≡ ok verified
    pub within : active_at verified.validity now ≡ true
    pub accredited :
        (anchor.standing claim.issuer_id verified.category now).accreditation_required ≡ true
        → (anchor.standing claim.issuer_id verified.category now).accredited ≡ true
    pub not_revoked : anchor.is_revoked claim.claim_id now ≡ false
    pub deps_live : AllLive anchor now verified.reliance

  deps-AllLive :
      (anchor : TrustAnchor c) (now : Timestamp) (deps : List ClaimId)
      → revoked_dep c j anchor now deps ≡ false
      → unresolved_dep c j anchor now deps ≡ false
      → AllLive anchor now deps
  unfolding revoked_dep unresolved_dep
  deps-AllLive anchor now [] r u = tt
  deps-AllLive anchor now (dep ∷ deps) r u =
      (ground arith, deps-AllLive anchor now deps (ground arith) (ground arith))

  AllLive-deps :
      (anchor : TrustAnchor c) (now : Timestamp) (deps : List ClaimId)
      → AllLive anchor now deps
      → (revoked_dep c j anchor now deps ≡ false) × (unresolved_dep c j anchor now deps ≡ false)
  unfolding revoked_dep unresolved_dep
  AllLive-deps anchor now [] h = (refl, refl)
  AllLive-deps anchor now (dep ∷ deps) (h, hs) =
      let (r, u) = AllLive-deps anchor now deps hs in (ground arith, ground arith)

  -- The verifier's own word for it, whatever checks came before.
  abbrev pub trusted : TrustAnchor c → Timestamp → Did → DisclosedClaim j → Bool
  trusted anchor now presenter claim =
      is_valid c j (verify_one_claim c j [] claim presenter now anchor).1

  module _ (anchor : TrustAnchor c) (now : Timestamp) (presenter : Did) where
    judged-IsTrusted :
        (claim : DisclosedClaim j) (vk : c.VerifyingKey) (checks : List Check)
        (r : Result ClaimReject (VerifiedDisclosure j))
        → anchor.issuer_key claim.issuer_id ≡ some vk
        → verify c j claim vk ≡ r
        → is_valid c j
            (judge_claim c j checks claim (bytes_eq claim.subject_id presenter) now anchor r).1
          ≡ true
        → IsTrusted anchor now presenter claim
    unfolding judge_claim authenticated_claim_checks
    judged-IsTrusted claim vk checks (err e) known p h = cc
    judged-IsTrusted claim vk checks (ok v) known p h = record {
      issuer_vk = vk;
      verified = v;
      subject = bytes_eq→eq _ _ (ground arith);
      recognized = known;
      authentic = p;
      within = ground arith;
      accredited = ground arith;
      not_revoked = ground arith;
      deps_live = deps-AllLive anchor now v.reliance (ground arith) (ground arith);
    }

    issued-IsTrusted :
        (claim : DisclosedClaim j) (checks : List Check) (key : Option c.VerifyingKey)
        → anchor.issuer_key claim.issuer_id ≡ key
        → is_valid c j
            (with_issuer c j checks claim (bytes_eq claim.subject_id presenter) now anchor key).1
          ≡ true
        → IsTrusted anchor now presenter claim
    unfolding with_issuer
    issued-IsTrusted claim checks none known h = cc
    issued-IsTrusted claim checks (some vk) known h =
        judged-IsTrusted claim vk checks (verify c j claim vk) known refl h

    pub trusted-IsTrusted :
        (claim : DisclosedClaim j)
        → trusted anchor now presenter claim ≡ true
        → IsTrusted anchor now presenter claim
    unfolding verify_one_claim
    trusted-IsTrusted claim h =
        issued-IsTrusted claim
          (check claim_subject_matches_presenter (bytes_eq claim.subject_id presenter) [])
          (anchor.issuer_key claim.issuer_id) refl h

    pub IsTrusted-trusted :
        (claim : DisclosedClaim j)
        → IsTrusted anchor now presenter claim
        → trusted anchor now presenter claim ≡ true
    unfolding verify_one_claim with_issuer judge_claim authenticated_claim_checks
    IsTrusted-trusted claim t =
        rw (t.recognized, t.authentic, with_issuer, judge_claim)
          (ground (
            arith,
            t.within,
            t.not_revoked,
            t.accredited,
            (bytes_eq_iff claim.subject_id presenter).1 t.subject,
            AllLive-deps anchor now t.verified.reliance t.deps_live,
          ))

    judged_same :
        (checks checks' : List Check) (claim : DisclosedClaim j) (b : Bool)
        (r : Result ClaimReject (VerifiedDisclosure j))
        → (judge_claim c j checks claim b now anchor r).1
          ≡ (judge_claim c j checks' claim b now anchor r).1
    unfolding judge_claim authenticated_claim_checks
    judged_same checks checks' claim b (ok v) = refl
    judged_same checks checks' claim b (err e) = refl

    issued_same :
        (checks checks' : List Check) (claim : DisclosedClaim j) (b : Bool)
        (key : Option c.VerifyingKey)
        → (with_issuer c j checks claim b now anchor key).1
          ≡ (with_issuer c j checks' claim b now anchor key).1
    unfolding with_issuer
    issued_same checks checks' claim b none = refl
    issued_same checks checks' claim b (some vk) =
        judged_same checks checks' claim b (verify c j claim vk)

    -- The outcome of a claim does not depend on the checks before it.
    pub outcome_same :
        (checks : List Check) (claim : DisclosedClaim j)
        → (verify_one_claim c j checks claim presenter now anchor).1
          ≡ (verify_one_claim c j [] claim presenter now anchor).1
    unfolding verify_one_claim
    outcome_same checks claim =
        let b = bytes_eq claim.subject_id presenter in
        issued_same (check claim_subject_matches_presenter b checks)
          (check claim_subject_matches_presenter b []) claim b (anchor.issuer_key claim.issuer_id)

    pub all-verify_claims :
        (checks : List Check) (claims : List (DisclosedClaim j))
        (outcomes : List (ClaimOutcome c j))
        → all passes (verify_claims c j checks claims outcomes presenter now anchor).0
          ≡ (all passes checks && all (trusted anchor now presenter) claims)
    unfolding verify_claims
    all-verify_claims checks [] outcomes = ground arith
    all-verify_claims checks (claim ∷ claims) outcomes =
        all-verify_claims (verify_one_claim c j checks claim presenter now anchor).0 claims
          (add_outcome c j (verify_one_claim c j checks claim presenter now anchor).1 outcomes)
        ∙ rw (all-verify_one_claim, outcome_same checks claim) (rw and_assoc)
