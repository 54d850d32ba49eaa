-- ===== src/Claims/PresentationVerifier/Amber.antt =====
-- About the amber verdict of crates/aion-trust-claims/src/presentation.rs.
use aion_trust.Prelude.{
  ◌≡◌, sym, ap, ◌∙◌, Bool, true, false, not, ◌||◌, List, [], arith, &&-eq-true, All, all, any,
  filter, Bytes, three_steps-eq-ok, not-eq-true, ok,
}
use aion_trust.Crypto.{Crypto}
use aion_trust.Json.{Json}
use aion_trust.Encoding.Hex.{from_hex, decode_array}
use aion_trust.Identity.{Did, Timestamp, verifying_key_from_hex}
use aion_trust.Claims.Anchor.{TrustAnchor}
use aion_trust.Claims.Predicate.{PredicateRequest}
use aion_trust.Claims.Report.{
  VerificationReport, passes, is_soft, is_reliance_resolvable, report_of,
}
use aion_trust.Claims.Presentation.{Presentation}
use aion_trust.Claims.PresentationVerifier.{
  verify_claims, predicate_holds, binding_checks, evaluate_predicates, verdict,
  verify_presentation_with_predicates,
}
use aion_trust.Claims.PresentationVerifier.Checks.{and_true}
use aion_trust.Claims.PresentationVerifier.Trusted.{all-verify_claims}
use aion_trust.Claims.PresentationVerifier.Answers.{Satisfies, all-Satisfies}
use aion_trust.Claims.PresentationVerifier.Verdict.{
  IsAccepted, IsAccepted_lem, all-All, all-binding_checks, verdict_lem,
}
use aion_trust.Claims.PresentationVerifier.Forgiven.{
  forgiven, soft_failures-forgiven, forgiven-evaluate_predicates,
}
use aion_trust.Claims.PresentationVerifier.Resolved.{resolved, verify_claims-Alike}
use aion_trust.Claims.PresentationVerifier.Unresolved.{RestsOnUnresolved, rests}

or_no : (b : Bool) → (b || false) ≡ b
or_no b = ground arith

module _ (c : Crypto) (j : Json) where
  forgiven-binding_checks :
      (p : Presentation c j) (vk : c.VerifyingKey) (nonce sig : Bytes) (audience : Did)
      (now : Timestamp) (seen : Bool)
      → all forgiven (binding_checks c j p vk nonce sig audience now seen)
        ≡ all passes (binding_checks c j p vk nonce sig audience now seen)
  unfolding binding_checks is_reliance_resolvable
  forgiven-binding_checks p vk nonce sig audience now seen = simp or_no

  -- The three parts of an amber verdict.
  amber_parts :
      (p : Presentation c j) (audience : Did) (now : Timestamp) (anchor : TrustAnchor c)
      (seen : Bool) (predicates : List (PredicateRequest j)) (vk : c.VerifyingKey)
      (nonce sig : Bytes)
      → (verdict c j p audience now anchor seen predicates vk nonce sig).amber ≡ true
      → ((verdict c j p audience now anchor seen predicates vk nonce sig).accepted ≡ false)
        × (all forgiven
              (verify_claims c j
                (binding_checks c j p vk nonce sig audience now seen)
                p.claims
                []
                p.subject_id
                now
                anchor).0
            ≡ true)
        × (all
              (λ req.
                any
                  (predicate_holds c j req)
                  (verify_claims c j
                    (binding_checks c j p vk nonce sig audience now seen)
                    p.claims
                    []
                    p.subject_id
                    now
                    anchor).1)
              predicates
            ≡ true)
  unfolding verdict report_of
  amber_parts p audience now anchor seen predicates vk nonce sig h =
      let bound = binding_checks c j p vk nonce sig audience now seen in
      let v = verify_claims c j bound p.claims [] p.subject_id now anchor in
      let checks = evaluate_predicates c j v.0 predicates v.1 in
      let (refused, soft) =
        &&-eq-true (not (all passes checks)) (all is_soft (filter (λ k. not (passes k)) checks))
          h in
      let (fv, preds) = &&-eq-true _ _ (
        sym (forgiven-evaluate_predicates c j v.0 predicates v.1)
        ∙ soft_failures-forgiven checks soft) in
      (not-eq-true (all passes checks) refused, fv, preds)

  -- An amber presentation is not accepted, but it would be if every claim that the anchor cannot
  -- resolve were live: all its checks but that one pass, no claim in it or relied upon by it is
  -- revoked, trusted claims answer the predicates, and a claim in it relies on an unresolvable one.
  pub amber_sound :
      (p : Presentation c j) (audience : Did) (now : Timestamp) (anchor : TrustAnchor c)
      (seen : Bool) (predicates : List (PredicateRequest j)) {r : VerificationReport}
      → verify_presentation_with_predicates c j p audience now anchor seen predicates ≡ ok r
      → r.amber ≡ true
      → (r.accepted ≡ false)
        × IsAccepted c j p audience now (resolved c j anchor) seen
        × All (Satisfies c j p now anchor) predicates
        × RestsOnUnresolved c j p now anchor
  unfolding verify_presentation_with_predicates
  amber_sound p audience now anchor seen predicates {r} e h =
      let (vk, nonce, sig, e1, e2, e3, q) =
        three_steps-eq-ok (verifying_key_from_hex c p.subject_key) (from_hex p.nonce)
          (decode_array 64 p.subject_signature) (verdict c j p audience now anchor seen predicates)
          e in
      let (refused, fv, preds) =
        amber_parts p audience now anchor seen predicates vk nonce sig
          (ap (λ (x : VerificationReport). x.amber) q ∙ h) in
      let bound = binding_checks c j p vk nonce sig audience now seen in
      let (b0, trust) = &&-eq-true _ _ (
        sym (all-verify_claims c j (resolved c j anchor) now p.subject_id bound p.claims [])
        ∙ sym (
            verify_claims-Alike c j anchor now bound bound p.claims [] [] p.subject_id
              (forgiven-binding_checks p vk nonce sig audience now seen))
        ∙ fv) in
      let ts = all-All c j (resolved c j anchor) now p.subject_id p.claims trust in
      (
        sym (ap (λ (x : VerificationReport). x.accepted) q) ∙ refused,
        IsAccepted_lem c j p audience now (resolved c j anchor) seen vk nonce sig e1 e2 e3
            (sym (all-binding_checks c j p vk nonce sig audience now seen) ∙ b0) ts,
        all-Satisfies c j p now anchor bound predicates preds,
        rests c j p now anchor ts (
            sym (and_true _)
            ∙ rw (b0, preds) at
                (sym (verdict_lem c j p audience now anchor seen predicates vk nonce sig)
                  ∙ refused)),
      )
