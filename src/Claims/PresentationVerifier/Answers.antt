-- ===== src/Claims/PresentationVerifier/Answers.antt =====
-- About the predicates of a presentation (crates/aion-trust-claims/src/presentation.rs).
use aion_trust.Prelude.{
  ℕ, zero, suc, ◌≡◌, refl, sym, ap, ◌∙◌, ◌⊎◌, inl, inr, Bool, true, Option, none, some, List, [],
  ◌∷◌, arith, Bool-cases, &&-eq-true, get_elem?, All, all, any, Text, bytes_eq→eq, Result, ok, err,
}
use aion_trust.Crypto.{Crypto}
use aion_trust.Json.{Json}
use aion_trust.Identity.{Did, Timestamp}
use aion_trust.Claims.Reject.{ClaimReject}
use aion_trust.Claims.Anchor.{TrustAnchor}
use aion_trust.Claims.Disclosure.{DisclosedClaim}
use aion_trust.Claims.DisclosureVerifier.{value_of}
use aion_trust.Claims.Predicate.{PredicateRequest, evaluate}
use aion_trust.Claims.Report.{Check}
use aion_trust.Claims.Presentation.{Presentation}
use aion_trust.Claims.PresentationVerifier.{
  ClaimOutcome, judge_claim, with_issuer, verify_one_claim, add_outcome, verify_claims, answers,
  or_false, predicate_holds,
}
use aion_trust.Claims.PresentationVerifier.Trusted.{IsTrusted, trusted-IsTrusted, outcome_same}

module _ (c : Crypto) (j : Json) where
  -- A predicate that some trusted claim of the presentation answers: of its category and scale, with
  -- the proven field satisfying the comparison.
  pub record Satisfies (p : Presentation c j) (now : Timestamp) (anchor : TrustAnchor c)
      (req : PredicateRequest j) : Type 0 where
    pub index : ℕ
    pub claim : DisclosedClaim j
    pub listed : get_elem? p.claims index ≡ some claim
    pub trust : IsTrusted c j anchor now p.subject_id claim
    pub same_category : claim.category ≡ req.category
    pub same_scale : (scale : Text) → req.scale_version ≡ some scale → claim.schema_id ≡ scale
    pub value : j.Value
    pub proven : value_of j trust.verified req.field ≡ some value
    pub compares : evaluate j req.op value req.bound ≡ ok true

  any-add_outcome :
      (q : ClaimOutcome c j → Bool) (o : Option (ClaimOutcome c j))
      (outcomes : List (ClaimOutcome c j))
      → any q (add_outcome c j o outcomes) ≡ true
      → (any q outcomes ≡ true) ⊎ ((x : ClaimOutcome c j) × (o ≡ some x) × (q x ≡ true))
  any-add_outcome q none outcomes h = inl h
  any-add_outcome q (some x) [] h = inr (x, refl, ground arith)
  any-add_outcome q (some x) (y ∷ outcomes) h = elim (Bool-cases (q y)) [
    | inl here ↦ inl (rw here)
    | inr other ↦ rw other (any-add_outcome q (some x) outcomes (rw other at h))
  ]

  -- An outcome comes from a claim of the list, or was there before.
  any-verify_claims :
      (q : ClaimOutcome c j → Bool) (anchor : TrustAnchor c) (now : Timestamp) (presenter : Did)
      (checks : List Check) (claims : List (DisclosedClaim j)) (outcomes : List (ClaimOutcome c j))
      → any q (verify_claims c j checks claims outcomes presenter now anchor).1 ≡ true
      → (any q outcomes ≡ true)
        ⊎ ((i : ℕ) × (claim : DisclosedClaim j) × (o : ClaimOutcome c j) × (get_elem? claims i
              ≡ some claim)
            × ((verify_one_claim c j [] claim presenter now anchor).1 ≡ some o)
            × (q o ≡ true))
  unfolding verify_claims
  any-verify_claims q anchor now presenter checks [] outcomes h = inl h
  any-verify_claims q anchor now presenter checks (claim ∷ claims) outcomes h =
      let v = verify_one_claim c j checks claim presenter now anchor in
      elim (any-verify_claims q anchor now presenter v.0 claims (add_outcome c j v.1 outcomes) h) [
        | inl before ↦ elim (any-add_outcome q v.1 outcomes before) [
          | inl older ↦ inl older
          | inr (o, e, holds) ↦ inr (
            zero,
            claim,
            o,
            refl,
            sym (outcome_same c j anchor now presenter checks claim) ∙ e,
            holds,
          )
        ]
        | inr (i, cl, o, at, e, holds) ↦ inr (suc i, cl, o, at, e, holds)
      ]

  -- The outcome of a trusted claim holds its category, its schema and what was proven.
  judged_outcome :
      (anchor : TrustAnchor c) (now : Timestamp) (presenter : Did) (claim : DisclosedClaim j)
      (t : IsTrusted c j anchor now presenter claim) (o : ClaimOutcome c j)
      → (verify_one_claim c j [] claim presenter now anchor).1 ≡ some o
      → (o.category ≡ claim.category) × (o.schema_id ≡ claim.schema_id) × (o.verified ≡ t.verified)
  unfolding verify_one_claim with_issuer judge_claim
  judged_outcome anchor now presenter claim t o e =
      let f = rw (t.recognized, t.authentic, with_issuer, judge_claim) at e in (cc f, cc f, cc f)

  answers-true :
      (req : PredicateRequest j) (o : Option j.Value)
      → answers c j req o ≡ true
      → (v : j.Value) × (o ≡ some v) × (evaluate j req.op v req.bound ≡ ok true)
  unfolding answers
  answers-true req none h = cc
  answers-true req (some v) h = (v, refl, or_false-true (evaluate j req.op v req.bound) h)
    where
      or_false-true : (r : Result ClaimReject Bool) → or_false c j r ≡ true → r ≡ ok true
      or_false-true (ok b) q = ap ok q
      or_false-true (err e) q = cc

  predicate_parts :
      (req : PredicateRequest j) (o : ClaimOutcome c j)
      → predicate_holds c j req o ≡ true
      → (o.fully_valid ≡ true)
        × (o.category ≡ req.category)
        × ((scale : Text) → req.scale_version ≡ some scale → o.schema_id ≡ scale)
        × (answers c j req (value_of j o.verified req.field) ≡ true)
  unfolding predicate_holds
  predicate_parts req o h = (
    ground arith,
    bytes_eq→eq _ _ (ground arith),
    λ scale q. bytes_eq→eq _ _ (ground arith),
    ground arith,
  )

  holds-Satisfies :
      (p : Presentation c j) (now : Timestamp) (anchor : TrustAnchor c) (req : PredicateRequest j)
      (i : ℕ) (claim : DisclosedClaim j) (o : ClaimOutcome c j)
      → get_elem? p.claims i ≡ some claim
      → (verify_one_claim c j [] claim p.subject_id now anchor).1 ≡ some o
      → predicate_holds c j req o ≡ true
      → Satisfies p now anchor req
  holds-Satisfies p now anchor req i claim o at e h =
      let (valid, h_category, h_scale, h_answers) = predicate_parts req o h in
      let t = trusted-IsTrusted c j anchor now p.subject_id claim (rw e valid) in
      let (p1, p2, p3) = judged_outcome anchor now p.subject_id claim t o e in
      let (v, q1, q2) = answers-true req _ h_answers in
      record {
        index = i;
        claim = claim;
        listed = at;
        trust = t;
        same_category = sym p1 ∙ h_category;
        same_scale = λ scale q. sym p2 ∙ h_scale scale q;
        value = v;
        proven = ap (λ d. value_of j d req.field) (sym p3) ∙ q1;
        compares = q2;
      }

  pub all-Satisfies :
      (p : Presentation c j) (now : Timestamp) (anchor : TrustAnchor c) (checks : List Check)
      (predicates : List (PredicateRequest j))
      → all
          (λ req.
            any
              (predicate_holds c j req)
              (verify_claims c j checks p.claims [] p.subject_id now anchor).1)
          predicates
        ≡ true
      → All (Satisfies p now anchor) predicates
  all-Satisfies p now anchor checks [] h = tt
  all-Satisfies p now anchor checks (req ∷ predicates) h =
      let (here, rest) = &&-eq-true _ _ h in
      (
        elim (any-verify_claims (predicate_holds c j req) anchor now p.subject_id checks p.claims []
            here) [
              | inl impossible ↦ cc
              | inr (i, claim, o, at, e, holds) ↦
                  holds-Satisfies p now anchor req i claim o at e holds
            ],
        all-Satisfies p now anchor checks predicates rest,
      )
