-- ===== src/Web/Red.antt =====
-- About verification in crates/aion-trust-web/src/verifier.rs after a revocation in issuer.rs.
use aion_trust.Prelude.{
  ℕ, suc, ◌+◌, ◌^◌, ◌<◌, ◌≡◌, sym, ap, ◌∙◌, inl, inr, true, false, false≢true, some, List, arith,
  Bool-cases, get_elem?, All-get_elem?, some-injective, bytes_eq_refl, ok,
}
use aion_trust.Crypto.{Crypto}
use aion_trust.Json.{Json}
use aion_trust.Identity.{ClaimId, Timestamp, identity_did}
use aion_trust.Claims.Disclosure.{DisclosedClaim}
use aion_trust.Claims.Predicate.{PredicateRequest}
use aion_trust.Claims.Presentation.{Presentation}
use aion_trust.Claims.Report.{VerificationReport}
use aion_trust.Claims.PresentationVerifier.Trusted.{IsTrusted}
use aion_trust.Claims.PresentationVerifier.Verdict.{accepted_sound}
use aion_trust.Claims.Nonce.{seen, verify_presentation_with_store}
use aion_trust.Claims.Nonce.Memory.{settle-ok}
use aion_trust.Registry.{revoke, set_epoch, is_revoked_at_epoch, registry_anchor}
use aion_trust.Registry.Revocation.{is_revoked-revoke, is_revoked-set_epoch}
use aion_trust.Web.{AppState, revoke_claim, run_verify, verify_pending}
use aion_trust.Web.Requests.{Steps, revoked_claim}
use aion_trust.Web.Kept.{IsCurrent, Leaves, step-Leaves}
use aion_trust.Web.Revoked.{Steps-revoked}

module _ (c : Crypto) (j : Json) where
  revoked_now :
      (app : AppState c j) (claim_id : ClaimId)
      → IsCurrent c j app
      → is_revoked_at_epoch c (revoke_claim c j app claim_id).registry claim_id ≡ true
  unfolding revoke_claim revoke set_epoch
  revoked_now app claim_id current =
      is_revoked-revoke c app.registry claim_id claim_id app.epoch app.registry.epoch
      ∙ ground (arith, current.same, bytes_eq_refl claim_id)

  -- The verifier accepts no presentation of a claim that its registry has revoked.
  none_accepted :
      (app : AppState c j) (p : Presentation c j) (preds : List (PredicateRequest j))
      (now : Timestamp) (k : ℕ) (claim : DisclosedClaim j) (r : VerificationReport)
      → IsCurrent c j app
      → get_elem? p.claims k ≡ some claim
      → is_revoked_at_epoch c app.registry claim.claim_id ≡ true
      → (verify_pending c j app preds now (some p)).0 ≡ some (ok r)
      → r.accepted ≡ false
  unfolding verify_pending verify_presentation_with_store registry_anchor set_epoch
  none_accepted app p preds now k claim r current listed rev e = elim (Bool-cases r.accepted) [
    | inr refused ↦ refused
    | inl accepted ↦
        let audience = identity_did c app.employer in
        let anchor = registry_anchor c (set_epoch c app.epoch app.registry) in
        let report = settle-ok app.nonces audience p.nonce p.expires_at _ (some-injective e) in
        let sound =
          accepted_sound c j p audience now anchor (seen app.nonces audience p.nonce) preds report
            accepted in
        let t =
          All-get_elem? (IsTrusted c j anchor now p.subject_id) p.claims k sound.0.claims_trusted
            listed in
        let still =
          is_revoked-set_epoch c app.registry claim.claim_id app.registry.epoch app.epoch
            (omega (arith, current.same)) rev in
        absurd (false≢true (sym t.not_revoked ∙ still))
  ]

  -- After a claim is revoked, and whatever requests and acts of walkthroughs follow, resets apart,
  -- no presentation of that claim that the verifier runs on is accepted; there are fewer requests
  -- than would overflow the epoch.
  pub revoked_rejected :
      (app after : AppState c j) (claim_id : ClaimId) (n : ℕ) (p : Presentation c j)
      (preds : List (PredicateRequest j)) (now : Timestamp) (k : ℕ) (claim : DisclosedClaim j)
      (r : VerificationReport)
      → IsCurrent c j app
      → Steps c j (revoke_claim c j app claim_id) n false after
      → app.epoch + suc n < 2 ^ 64
      → after.last_presentation ≡ some p
      → get_elem? p.claims k ≡ some claim
      → claim.claim_id ≡ claim_id
      → (run_verify c j after preds now).0 ≡ some (ok r)
      → r.accepted ≡ false
  unfolding run_verify Leaves
  revoked_rejected app after claim_id n p preds now k claim r current steps small pending listed
        same_id e =
      let revoked_app = revoke_claim c j app claim_id in
      let kept =
        step-Leaves c j app revoked_app false (revoked_claim claim_id) current
          (omega (arith, small)) in
      let (current', soon, run) =
        Steps-revoked c j revoked_app after n false steps kept.current
          (omega (arith, kept.one_later, small)) in
      none_accepted after p preds now k claim r current' listed
        (ap (is_revoked_at_epoch c after.registry) same_id
          ∙ run.1 claim_id (revoked_now app claim_id current))
        (rw pending at e)
