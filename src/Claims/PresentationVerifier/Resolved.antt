-- ===== src/Claims/PresentationVerifier/Resolved.antt =====
-- About the checks of crates/aion-trust-claims/src/presentation.rs under an anchor that takes what it
-- cannot resolve for live.
use aion_trust.Prelude.{
  ◌≡◌, refl, inl, inr, Bool, true, false, not, ◌||◌, Option, none, some, List, [], ◌∷◌, arith,
  Bool-cases, all, Text, bytes_eq, Result, ok, err,
}
use aion_trust.Prelude.Map.{keys}
use aion_trust.Crypto.{Crypto}
use aion_trust.Json.{Json}
use aion_trust.Identity.{Did, ClaimId, Timestamp}
use aion_trust.Claims.Reject.{ClaimReject}
use aion_trust.Claims.Anchor.{TrustAnchor, IssuerStanding, ClaimStatus, live, revoked, unresolvable}
use aion_trust.Claims.Claim.{active_at}
use aion_trust.Claims.Disclosure.{DisclosedClaim}
use aion_trust.Claims.DisclosureVerifier.{VerifiedDisclosure, verify}
use aion_trust.Claims.Report.{
  CheckName, Check, check, passes, is_reliance_resolvable, issuer_accredited,
  claim_subject_matches_presenter, claim_within_validity, claim_not_revoked, claim_authentic,
  issuer_recognized, field_proven_against_body_root,
}
use aion_trust.Claims.PresentationVerifier.Checks.{all-check}
use aion_trust.Claims.PresentationVerifier.{
  check_fields, check_standing, check_reliance, revoked_dep, unresolved_dep,
  authenticated_claim_checks, ClaimOutcome, judge_claim, with_issuer, verify_one_claim, add_outcome,
  verify_claims,
}
use aion_trust.Claims.PresentationVerifier.Forgiven.{forgiven, forgiven-check}

module _ (c : Crypto) (j : Json) where
  -- The anchor that takes a claim it cannot resolve for live.
  abbrev pub or_live : ClaimStatus → ClaimStatus
  or_live live = live
  or_live revoked = revoked
  or_live unresolvable = live

  abbrev pub resolved : TrustAnchor c → TrustAnchor c
  resolved anchor = record anchor { status = λ dep now. or_live (anchor.status dep now) }

  -- Checks of two runs that pass alike: those of the first when failures of the soft one are
  -- forgiven, those of the second outright.
  abbrev pub Alike : List Check → List Check → Type 0
  Alike cs ds = all forgiven cs ≡ all passes ds

  check-Alike :
      (name : CheckName) (b : Bool) (cs ds : List Check)
      → is_reliance_resolvable name ≡ false
      → Alike cs ds
      → Alike (check name b cs) (check name b ds)
  check-Alike name b cs ds e h =
      rw (forgiven-check name b cs, all-check name b ds, e, h) (ground arith)

  check_fields-Alike :
      (keys : List Text) (cs ds : List Check)
      → Alike cs ds
      → Alike (check_fields c j keys cs) (check_fields c j keys ds)
  unfolding check_fields is_reliance_resolvable
  check_fields-Alike [] cs ds h = h
  check_fields-Alike (key ∷ keys) cs ds h =
      check_fields-Alike keys (check field_proven_against_body_root true cs)
        (check field_proven_against_body_root true ds)
        (check-Alike field_proven_against_body_root true cs ds refl h)

  check_standing-Alike :
      (s : IssuerStanding) (cs ds : List Check)
      → Alike cs ds
      → Alike (check_standing c j s cs) (check_standing c j s ds)
  unfolding check_standing is_reliance_resolvable
  check_standing-Alike s cs ds h = elim (Bool-cases s.accreditation_required) [
    | inl required ↦ rw required (check-Alike issuer_accredited s.accredited cs ds refl h)
    | inr optional ↦ rw optional h
  ]

  module _ (anchor : TrustAnchor c) (now : Timestamp) where
    revoked_same :
        (deps : List ClaimId)
        → revoked_dep c j (resolved anchor) now deps ≡ revoked_dep c j anchor now deps
    unfolding revoked_dep
    revoked_same [] = refl
    revoked_same (dep ∷ deps) =
        rw (revoked_same deps) (same (anchor.status dep now) (revoked_dep c j anchor now deps))
      where
        same :
            (s : ClaimStatus) (rest : Bool)
            → (elim (or_live s) [ revoked ↦ true | _ ↦ false ] || rest)
              ≡ (elim s [ revoked ↦ true | _ ↦ false ] || rest)
        same live rest = refl
        same revoked rest = refl
        same unresolvable rest = refl

    all_resolved : (deps : List ClaimId) → unresolved_dep c j (resolved anchor) now deps ≡ false
    unfolding unresolved_dep
    all_resolved [] = refl
    all_resolved (dep ∷ deps) = rw (all_resolved deps) (none_left (anchor.status dep now))
      where
        none_left :
            (s : ClaimStatus)
            → (elim (or_live s) [ unresolvable ↦ true | _ ↦ false ] || false) ≡ false
        none_left live = refl
        none_left revoked = refl
        none_left unresolvable = refl

    check_reliance-Alike :
        (deps : List ClaimId) (rev unres : Bool) (cs ds : List Check)
        → Alike cs ds
        → Alike (check_reliance c j deps rev unres cs) (check_reliance c j deps rev false ds)
    unfolding check_reliance is_reliance_resolvable
    check_reliance-Alike [] rev unres cs ds h = h
    check_reliance-Alike (dep ∷ deps) rev unres cs ds h =
        rw (forgiven-check, forgiven-check, all-check, all-check, h) (ground arith)

    authenticated-Alike :
        (cs ds : List Check) (claim : DisclosedClaim j) (verified : VerifiedDisclosure j)
        → Alike cs ds
        → Alike
            (authenticated_claim_checks c j cs claim verified now anchor).0
            (authenticated_claim_checks c j ds claim verified now (resolved anchor)).0
    unfolding authenticated_claim_checks is_reliance_resolvable
    authenticated-Alike cs ds claim v h =
        let standing = anchor.standing claim.issuer_id v.category now in
        let within = active_at v.validity now in
        let authentic =
          λ (ks : List Check). check_fields c j (keys v.fields) (check claim_authentic true ks) in
        let valid = λ (ks : List Check). check claim_within_validity within (authentic ks) in
        let h1 =
          check_fields-Alike (keys v.fields) (check claim_authentic true cs)
            (check claim_authentic true ds) (check-Alike claim_authentic true cs ds refl h) in
        let h2 = check-Alike claim_within_validity within (authentic cs) (authentic ds) refl h1 in
        let h3 = check_standing-Alike standing (valid cs) (valid ds) h2 in
        let h4 =
          check-Alike claim_not_revoked (not (anchor.is_revoked claim.claim_id now))
            (check_standing c j standing (valid cs)) (check_standing c j standing (valid ds)) refl
            h3 in
        rw (revoked_same v.reliance, all_resolved v.reliance)
          (check_reliance-Alike v.reliance (revoked_dep c j anchor now v.reliance)
            (unresolved_dep c j anchor now v.reliance) _ _ h4)

    judged-Alike :
        (cs ds : List Check) (claim : DisclosedClaim j) (subject_ok : Bool)
        (r : Result ClaimReject (VerifiedDisclosure j))
        → Alike cs ds
        → Alike
            (judge_claim c j cs claim subject_ok now anchor r).0
            (judge_claim c j ds claim subject_ok now (resolved anchor) r).0
    unfolding judge_claim is_reliance_resolvable
    judged-Alike cs ds claim subject_ok (err e) h = check-Alike claim_authentic false cs ds refl h
    judged-Alike cs ds claim subject_ok (ok v) h = authenticated-Alike cs ds claim v h

    issued-Alike :
        (cs ds : List Check) (claim : DisclosedClaim j) (subject_ok : Bool)
        (key : Option c.VerifyingKey)
        → Alike cs ds
        → Alike
            (with_issuer c j cs claim subject_ok now anchor key).0
            (with_issuer c j ds claim subject_ok now (resolved anchor) key).0
    unfolding with_issuer is_reliance_resolvable
    issued-Alike cs ds claim subject_ok none h = check-Alike issuer_recognized false cs ds refl h
    issued-Alike cs ds claim subject_ok (some vk) h =
        judged-Alike cs ds claim subject_ok (verify c j claim vk) h

    verified-Alike :
        (cs ds : List Check) (claim : DisclosedClaim j) (presenter : Did)
        → Alike cs ds
        → Alike
            (verify_one_claim c j cs claim presenter now anchor).0
            (verify_one_claim c j ds claim presenter now (resolved anchor)).0
    unfolding verify_one_claim is_reliance_resolvable
    verified-Alike cs ds claim presenter h =
        let b = bytes_eq claim.subject_id presenter in
        issued-Alike (check claim_subject_matches_presenter b cs)
          (check claim_subject_matches_presenter b ds) claim b (anchor.issuer_key claim.issuer_id)
          (check-Alike claim_subject_matches_presenter b cs ds refl h)

    -- The claims fare under `resolved anchor` as they fare with soft failures forgiven.
    pub verify_claims-Alike :
        (cs ds : List Check) (claims : List (DisclosedClaim j)) (os ps : List (ClaimOutcome c j))
        (presenter : Did)
        → Alike cs ds
        → Alike
            (verify_claims c j cs claims os presenter now anchor).0
            (verify_claims c j ds claims ps presenter now (resolved anchor)).0
    unfolding verify_claims
    verify_claims-Alike cs ds [] os ps presenter h = h
    verify_claims-Alike cs ds (claim ∷ claims) os ps presenter h =
        let v = verify_one_claim c j cs claim presenter now anchor in
        let w = verify_one_claim c j ds claim presenter now (resolved anchor) in
        verify_claims-Alike v.0 w.0 claims (add_outcome c j v.1 os) (add_outcome c j w.1 ps)
          presenter (verified-Alike cs ds claim presenter h)
