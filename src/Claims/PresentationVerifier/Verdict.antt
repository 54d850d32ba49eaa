-- ===== src/Claims/PresentationVerifier/Verdict.antt =====
-- About the verdict of crates/aion-trust-claims/src/presentation.rs: which presentations are
-- accepted.
use aion_trust.Prelude.{
  ◌≤◌, ◌≡◌, refl, sym, ap, ◌∙◌, Bool, true, false, not, ◌&&◌, List, [], ◌∷◌, arith, leb, ◌==◌,
  &&-eq-true, length, All, all, any, Bytes, bytes_eq, bytes_eq→eq, bytes_eq_iff, three_steps-eq-ok,
  ok,
}
use aion_trust.Prelude.Int.{◌≤ℤ◌, ◌≤ℤ◌, leb_ℤ, leb_ℤ, leb_ℤ→le, le→leb_ℤ}
use aion_trust.Crypto.{Crypto}
use aion_trust.Json.{Json}
use aion_trust.Encoding.Hex.{from_hex, decode_array}
use aion_trust.Identity.{Did, Timestamp, did_from_key, verifying_key_from_hex}
use aion_trust.Claims.Anchor.{TrustAnchor}
use aion_trust.Claims.Disclosure.{DisclosedClaim}
use aion_trust.Claims.Predicate.{PredicateRequest}
use aion_trust.Claims.Report.{VerificationReport, passes, report_of}
use aion_trust.Claims.Presentation.{Presentation, pres_signing_bytes}
use aion_trust.Claims.PresentationVerifier.{
  min_nonce_len, verify_claims, predicate_holds, binding_checks, verdict,
  verify_presentation_with_predicates, verify_presentation,
}
use aion_trust.Claims.PresentationVerifier.Trusted.{
  IsTrusted, trusted, trusted-IsTrusted, IsTrusted-trusted, all-verify_claims,
}
use aion_trust.Claims.PresentationVerifier.Answers.{Satisfies, all-Satisfies}
use aion_trust.Claims.PresentationVerifier.Checks.{and_true, and_assoc, all-evaluate_predicates}

module _ (c : Crypto) (j : Json) where
  -- What acceptance of a presentation establishes.
  pub record IsAccepted (p : Presentation c j) (audience : Did) (now : Timestamp)
      (anchor : TrustAnchor c) (nonce_already_seen : Bool) : Type 0 where
    pub subject_vk : c.VerifyingKey
    pub nonce_bytes : Bytes
    pub sig : Bytes
    pub key_decodes : verifying_key_from_hex c p.subject_key ≡ ok subject_vk
    pub nonce_decodes : from_hex p.nonce ≡ ok nonce_bytes
    pub sig_decodes : decode_array 64 p.subject_signature ≡ ok sig
    pub binds : did_from_key c subject_vk ≡ p.subject_id
    pub for_audience : p.audience ≡ audience
    pub started : p.issued_at ≤ℤ now
    pub unexpired : now ≤ℤ p.expires_at
    pub fresh : nonce_already_seen ≡ false
    pub long_nonce : min_nonce_len ≤ length nonce_bytes
    pub some_claim : 1 ≤ length p.claims
    pub signed :
        c.verify subject_vk
          (pres_signing_bytes c j p.subject_id p.audience p.purpose nonce_bytes p.issued_at
            p.expires_at p.claims)
          sig
        ≡ true
    pub claims_trusted : All (IsTrusted c j anchor now p.subject_id) p.claims

  -- The seven tests of the presentation, as one.
  abbrev bound_test :
      Presentation c j → c.VerifyingKey → Bytes → Bytes → Did → Timestamp → Bool → Bool
  bound_test p vk nonce sig audience now seen =
      bytes_eq (did_from_key c vk) p.subject_id
      && (bytes_eq p.audience audience
          && ((leb_ℤ p.issued_at now && leb_ℤ now p.expires_at)
              && (not seen
                  && (leb min_nonce_len (length nonce)
                      && (not (length p.claims == 0)
                          && c.verify vk
                              (pres_signing_bytes c j p.subject_id p.audience p.purpose nonce
                                p.issued_at p.expires_at p.claims)
                              sig)))))

  -- The seven tests of `binding_checks`, in the order of the source.
  pub all-binding_checks :
      (p : Presentation c j) (vk : c.VerifyingKey) (nonce sig : Bytes) (audience : Did)
      (now : Timestamp) (seen : Bool)
      → all passes (binding_checks c j p vk nonce sig audience now seen)
        ≡ bound_test p vk nonce sig audience now seen
  unfolding binding_checks
  all-binding_checks p vk nonce sig audience now seen = simp (and_assoc, and_true)

  pub all-All :
      (anchor : TrustAnchor c) (now : Timestamp) (presenter : Did)
      (claims : List (DisclosedClaim j))
      → all (trusted c j anchor now presenter) claims ≡ true
      → All (IsTrusted c j anchor now presenter) claims
  all-All anchor now presenter [] h = tt
  all-All anchor now presenter (claim ∷ claims) h =
      let (t, ts) = &&-eq-true _ _ h in
      (trusted-IsTrusted c j anchor now presenter claim t, all-All anchor now presenter claims ts)

  All-all :
      (anchor : TrustAnchor c) (now : Timestamp) (presenter : Did)
      (claims : List (DisclosedClaim j))
      → All (IsTrusted c j anchor now presenter) claims
      → all (trusted c j anchor now presenter) claims ≡ true
  All-all anchor now presenter [] h = refl
  All-all anchor now presenter (claim ∷ claims) (t, ts) =
      rw (IsTrusted-trusted c j anchor now presenter claim t)
        (All-all anchor now presenter claims ts)

  pub IsAccepted_lem :
      (p : Presentation c j) (audience : Did) (now : Timestamp) (anchor : TrustAnchor c)
      (seen : Bool) (vk : c.VerifyingKey) (nonce sig : Bytes)
      → verifying_key_from_hex c p.subject_key ≡ ok vk
      → from_hex p.nonce ≡ ok nonce
      → decode_array 64 p.subject_signature ≡ ok sig
      → bound_test p vk nonce sig audience now seen ≡ true
      → All (IsTrusted c j anchor now p.subject_id) p.claims
      → IsAccepted p audience now anchor seen
  IsAccepted_lem p audience now anchor seen vk nonce sig e1 e2 e3 b trust =
      let (t1, b1) = &&-eq-true _ _ b in
      let (t2, b2) = &&-eq-true _ _ b1 in
      let (t3, b3) = &&-eq-true _ _ b2 in
      let (t4, b4) = &&-eq-true (not seen) _ b3 in
      let (t5, b5) = &&-eq-true (leb min_nonce_len (length nonce)) _ b4 in
      let (t6, t7) = &&-eq-true (not (length p.claims == 0)) _ b5 in
      let (t8, t9) = &&-eq-true _ _ t3 in
      record {
        subject_vk = vk;
        nonce_bytes = nonce;
        sig = sig;
        key_decodes = e1;
        nonce_decodes = e2;
        sig_decodes = e3;
        binds = bytes_eq→eq _ _ t1;
        for_audience = bytes_eq→eq _ _ t2;
        started = leb_ℤ→le p.issued_at now t8;
        unexpired = leb_ℤ→le now p.expires_at t9;
        fresh = ground (arith, t4);
        long_nonce = ground (arith, t5);
        some_claim = ground (arith, t6);
        signed = t7;
        claims_trusted = trust;
      }

  bound_test-true :
      (p : Presentation c j) (audience : Did) (now : Timestamp) (anchor : TrustAnchor c)
      (seen : Bool) (a : IsAccepted p audience now anchor seen)
      → bound_test p a.subject_vk a.nonce_bytes a.sig audience now seen ≡ true
  bound_test-true p audience now anchor seen a =
      rw
        (
          (bytes_eq_iff _ _).1 a.binds,
          (bytes_eq_iff _ _).1 a.for_audience,
          le→leb_ℤ p.issued_at now a.started,
          le→leb_ℤ now p.expires_at a.unexpired,
          a.signed,
        )
        (ground (arith, a.fresh, a.long_nonce, a.some_claim))

  -- The verdict is the conjunction of the seven tests, the trust in each claim and the predicates.
  pub verdict_lem :
      (p : Presentation c j) (audience : Did) (now : Timestamp) (anchor : TrustAnchor c)
      (seen : Bool) (predicates : List (PredicateRequest j)) (vk : c.VerifyingKey)
      (nonce sig : Bytes)
      → (verdict c j p audience now anchor seen predicates vk nonce sig).accepted ≡ (
          (all passes (binding_checks c j p vk nonce sig audience now seen)
            && all (trusted c j anchor now p.subject_id) p.claims)
          && all
              (λ req.
                any
                  (predicate_holds c j req)
                  (verify_claims c j
                    (binding_checks c j p vk nonce sig audience now seen)
                    p.claims
                    []
                    p.subject_id
                    now
                    anchor).1)
              predicates)
  unfolding verdict report_of
  verdict_lem p audience now anchor seen predicates vk nonce sig =
      let bound = binding_checks c j p vk nonce sig audience now seen in
      let v = verify_claims c j bound p.claims [] p.subject_id now anchor in
      all-evaluate_predicates c j v.0 predicates v.1
      ∙ ap (λ b. b && all (λ req. any (predicate_holds c j req) v.1) predicates)
          (all-verify_claims c j anchor now p.subject_id bound p.claims [])

  -- A presentation that is accepted: it decodes, it binds the subject's key, it is for this
  -- audience and within its time, its nonce is fresh and long, it has a claim, its signature
  -- verifies, every claim of it is trusted, and some trusted claim answers each predicate.
  pub accepted_sound :
      (p : Presentation c j) (audience : Did) (now : Timestamp) (anchor : TrustAnchor c)
      (seen : Bool) (predicates : List (PredicateRequest j)) {r : VerificationReport}
      → verify_presentation_with_predicates c j p audience now anchor seen predicates ≡ ok r
      → r.accepted ≡ true
      → IsAccepted p audience now anchor seen × All (Satisfies c j p now anchor) predicates
  unfolding verify_presentation_with_predicates
  accepted_sound p audience now anchor seen predicates {r} e h =
      let (vk, nonce, sig, e1, e2, e3, q) =
        three_steps-eq-ok (verifying_key_from_hex c p.subject_key) (from_hex p.nonce)
          (decode_array 64 p.subject_signature) (verdict c j p audience now anchor seen predicates)
          e in
      let bound = binding_checks c j p vk nonce sig audience now seen in
      let v = verify_claims c j bound p.claims [] p.subject_id now anchor in
      let (both, preds) = &&-eq-true _ _ (
        sym (verdict_lem p audience now anchor seen predicates vk nonce sig)
        ∙ ap (λ x. x.accepted) q
        ∙ h) in
      let (b0, trust) = &&-eq-true _ _ both in
      (
        IsAccepted_lem p audience now anchor seen vk nonce sig e1 e2 e3
            (sym (all-binding_checks p vk nonce sig audience now seen) ∙ b0)
            (all-All anchor now p.subject_id p.claims trust),
        all-Satisfies c j p now anchor bound predicates preds,
      )

  -- The converse, without predicates: what `IsAccepted` lists is enough for acceptance.
  pub accepted_complete :
      (p : Presentation c j) (audience : Did) (now : Timestamp) (anchor : TrustAnchor c)
      (seen : Bool)
      → IsAccepted p audience now anchor seen
      → (r : VerificationReport) × (verify_presentation c j p audience now anchor seen ≡ ok r)
        × (r.accepted ≡ true)
  unfolding verify_presentation verify_presentation_with_predicates
  accepted_complete p audience now anchor seen a =
      let v = verdict c j p audience now anchor seen [] a.subject_vk a.nonce_bytes a.sig in
      (
        v,
        rw (a.key_decodes, a.nonce_decodes, a.sig_decodes),
        verdict_lem p audience now anchor seen [] a.subject_vk a.nonce_bytes a.sig
            ∙ rw (
              all-binding_checks p a.subject_vk a.nonce_bytes a.sig audience now seen,
              bound_test-true p audience now anchor seen a,
              All-all anchor now p.subject_id p.claims a.claims_trusted,
            ),
      )

  -- Predicates only narrow: a presentation accepted with predicates is accepted without them.
  pub predicates_narrow :
      (p : Presentation c j) (audience : Did) (now : Timestamp) (anchor : TrustAnchor c)
      (seen : Bool) (predicates : List (PredicateRequest j)) {r : VerificationReport}
      → verify_presentation_with_predicates c j p audience now anchor seen predicates ≡ ok r
      → r.accepted ≡ true
      → (r' : VerificationReport) × (verify_presentation c j p audience now anchor seen ≡ ok r')
        × (r'.accepted ≡ true)
  predicates_narrow p audience now anchor seen predicates e h =
      accepted_complete p audience now anchor seen
        (accepted_sound p audience now anchor seen predicates e h).0
