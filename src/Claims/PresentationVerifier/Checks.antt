-- ===== src/Claims/PresentationVerifier/Checks.antt =====
-- About the lists of checks that crates/aion-trust-claims/src/presentation.rs appends to.
use aion_trust.Prelude.{
  ◌≡◌, refl, ◌∙◌, Bool, true, false, not, ◌&&◌, Option, none, some, List, [], ◌∷◌, ◌++◌, arith,
  if◌then◌else◌, all, any, Text, bytes_eq, Result, ok, err,
}
use aion_trust.Crypto.{Crypto}
use aion_trust.Json.{Json}
use aion_trust.Identity.{Did, ClaimId, Timestamp}
use aion_trust.Claims.Reject.{ClaimReject}
use aion_trust.Claims.Anchor.{TrustAnchor, IssuerStanding}
use aion_trust.Claims.Disclosure.{DisclosedClaim}
use aion_trust.Claims.DisclosureVerifier.{VerifiedDisclosure, verify}
use aion_trust.Claims.Predicate.{PredicateRequest}
use aion_trust.Claims.Report.{
  CheckName, issuer_accredited, Check, check, passes, predicate_satisfied,
  claim_subject_matches_presenter,
}
use aion_trust.Claims.PresentationVerifier.{
  check_fields, check_standing, check_reliance, revoked_dep, unresolved_dep,
  authenticated_claim_checks, ClaimOutcome, judge_claim, with_issuer, verify_one_claim,
  predicate_holds, evaluate_predicates,
}

pub all-append : (xs ys : List Check) → all passes (xs ++ ys) ≡ (all passes xs && all passes ys)
all-append [] ys = refl
all-append (x ∷ xs) ys = ground (arith, all-append xs ys)

pub all-check :
    (name : CheckName) (b : Bool) (checks : List Check)
    → all passes (check name b checks) ≡ (all passes checks && b)
unfolding check
all-check name b checks = rw (all-append checks _) (ground arith)

pub and_assoc : (a b d : Bool) → ((a && b) && d) ≡ (a && (b && d))
and_assoc a b d = ground arith

pub and_true : (a : Bool) → (a && true) ≡ a
and_true a = ground arith

module _ (c : Crypto) (j : Json) where
  all-check_fields :
      (keys : List Text) (checks : List Check)
      → all passes (check_fields c j keys checks) ≡ all passes checks
  unfolding check_fields
  all-check_fields [] checks = refl
  all-check_fields (key ∷ keys) checks =
      rw (all-check_fields keys _, all-check _ true checks) (ground arith)

  all-check_standing :
      (s : IssuerStanding) (checks : List Check)
      → all passes (check_standing c j s checks)
        ≡ (all passes checks && (if s.accreditation_required then s.accredited else true))
  unfolding check_standing
  all-check_standing s checks = ground (arith, all-check issuer_accredited s.accredited checks)

  all-check_reliance :
      (anchor : TrustAnchor c) (now : Timestamp) (deps : List ClaimId) (checks : List Check)
      → all passes (
          check_reliance c j deps
            (revoked_dep c j anchor now deps)
            (unresolved_dep c j anchor now deps)
            checks)
        ≡ (all passes checks
            && (not (revoked_dep c j anchor now deps) && not (unresolved_dep c j anchor now deps)))
  unfolding check_reliance revoked_dep unresolved_dep
  all-check_reliance anchor now [] checks = ground arith
  all-check_reliance anchor now (dep ∷ deps) checks = simp (all-check, and_assoc)

  -- The flag that `authenticated_claim_checks` returns is the conjunction of the checks it makes.
  pub all-authenticated_claim_checks :
      (checks : List Check) (claim : DisclosedClaim j) (verified : VerifiedDisclosure j)
      (now : Timestamp) (anchor : TrustAnchor c)
      → all passes (authenticated_claim_checks c j checks claim verified now anchor).0
        ≡ (all passes checks && (authenticated_claim_checks c j checks claim verified now anchor).1)
  unfolding authenticated_claim_checks
  all-authenticated_claim_checks checks claim verified now anchor =
      simp (all-check_reliance, all-check, all-check_standing, all-check_fields, and_assoc)

  -- A claim that authenticated and passed all its trust checks.
  abbrev pub is_valid : Option (ClaimOutcome c j) → Bool
  is_valid none = false
  is_valid (some o) = o.fully_valid

  judged :
      (checks : List Check) (claim : DisclosedClaim j) (subject_ok : Bool) (now : Timestamp)
      (anchor : TrustAnchor c) (r : Result ClaimReject (VerifiedDisclosure j))
      → all passes
          (judge_claim c j
            (check claim_subject_matches_presenter subject_ok checks)
            claim
            subject_ok
            now
            anchor
            r).0
        ≡ (all passes checks
            && is_valid
                (judge_claim c j
                  (check claim_subject_matches_presenter subject_ok checks)
                  claim
                  subject_ok
                  now
                  anchor
                  r).1)
  unfolding judge_claim
  judged checks claim subject_ok now anchor (err e) = simp all-check (ground arith)
  judged checks claim subject_ok now anchor (ok v) =
      simp (all-authenticated_claim_checks, all-check, and_assoc)

  issued :
      (checks : List Check) (claim : DisclosedClaim j) (subject_ok : Bool) (now : Timestamp)
      (anchor : TrustAnchor c) (key : Option c.VerifyingKey)
      → all passes
          (with_issuer c j
            (check claim_subject_matches_presenter subject_ok checks)
            claim
            subject_ok
            now
            anchor
            key).0
        ≡ (all passes checks
            && is_valid
                (with_issuer c j
                  (check claim_subject_matches_presenter subject_ok checks)
                  claim
                  subject_ok
                  now
                  anchor
                  key).1)
  unfolding with_issuer
  issued checks claim subject_ok now anchor none = simp all-check (ground arith)
  issued checks claim subject_ok now anchor (some vk) =
      judged checks claim subject_ok now anchor (verify c j claim vk)

  -- The checks of a claim all pass exactly when its outcome is fully valid.
  pub all-verify_one_claim :
      (checks : List Check) (claim : DisclosedClaim j) (presenter : Did) (now : Timestamp)
      (anchor : TrustAnchor c)
      → all passes (verify_one_claim c j checks claim presenter now anchor).0
        ≡ (all passes checks && is_valid (verify_one_claim c j checks claim presenter now anchor).1)
  unfolding verify_one_claim
  all-verify_one_claim checks claim presenter now anchor =
      issued checks claim (bytes_eq claim.subject_id presenter) now anchor
        (anchor.issuer_key claim.issuer_id)

  pub all-evaluate_predicates :
      (checks : List Check) (predicates : List (PredicateRequest j))
      (outcomes : List (ClaimOutcome c j))
      → all passes (evaluate_predicates c j checks predicates outcomes)
        ≡ (all passes checks && all (λ req. any (predicate_holds c j req) outcomes) predicates)
  unfolding evaluate_predicates
  all-evaluate_predicates checks [] outcomes = ground arith
  all-evaluate_predicates checks (req ∷ predicates) outcomes =
      all-evaluate_predicates
        (check predicate_satisfied (any (predicate_holds c j req) outcomes) checks) predicates
        outcomes
      ∙ simp (all-check, and_assoc)
