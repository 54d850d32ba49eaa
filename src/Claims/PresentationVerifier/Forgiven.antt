-- ===== src/Claims/PresentationVerifier/Forgiven.antt =====
-- About the checks of crates/aion-trust-claims/src/presentation.rs that pass when
-- the failures of `reliance_resolvable` are forgiven, as the amber verdict does.
use aion_trust.Prelude.{
  ◌≡◌, refl, ◌∙◌, inl, inr, Bool, true, not, ◌&&◌, ◌||◌, List, [], ◌∷◌, ◌++◌, arith, Bool-cases,
  &&-eq-true, all, any, filter,
}
use aion_trust.Crypto.{Crypto}
use aion_trust.Json.{Json}
use aion_trust.Claims.Predicate.{PredicateRequest}
use aion_trust.Claims.Report.{
  CheckName, Check, check, passes, is_soft, is_reliance_resolvable, predicate_satisfied,
}
use aion_trust.Claims.PresentationVerifier.{ClaimOutcome, predicate_holds, evaluate_predicates}

-- A check that passed, or the soft one.
abbrev pub forgiven : Check → Bool
forgiven k = k.passed || is_soft k

-- Whatever is amber has no failure but soft ones.
pub soft_failures-forgiven :
    (checks : List Check)
    → all is_soft (filter (λ k. not (passes k)) checks) ≡ true
    → all forgiven checks ≡ true
soft_failures-forgiven [] h = refl
soft_failures-forgiven (k ∷ checks) h = elim (Bool-cases k.passed) [
  | inl passed ↦ rw passed (soft_failures-forgiven checks (rw passed at h))
  | inr failed ↦
      let (soft, rest) =
        &&-eq-true (is_soft k) (all is_soft (filter (λ x. not (passes x)) checks))
          (rw failed at h) in
      rw (failed, soft) (soft_failures-forgiven checks rest)
]

forgiven-append :
    (xs ys : List Check) → all forgiven (xs ++ ys) ≡ (all forgiven xs && all forgiven ys)
forgiven-append [] ys = refl
forgiven-append (x ∷ xs) ys = ground (arith, forgiven-append xs ys)

pub forgiven-check :
    (name : CheckName) (b : Bool) (checks : List Check)
    → all forgiven (check name b checks)
      ≡ (all forgiven checks && (b || is_reliance_resolvable name))
unfolding check
forgiven-check name b checks = rw (forgiven-append checks _) (ground arith)

module _ (c : Crypto) (j : Json) where
  pub forgiven-evaluate_predicates :
      (checks : List Check) (predicates : List (PredicateRequest j))
      (outcomes : List (ClaimOutcome c j))
      → all forgiven (evaluate_predicates c j checks predicates outcomes)
        ≡ (all forgiven checks && all (λ req. any (predicate_holds c j req) outcomes) predicates)
  unfolding evaluate_predicates is_reliance_resolvable
  forgiven-evaluate_predicates checks [] outcomes = ground arith
  forgiven-evaluate_predicates checks (req ∷ predicates) outcomes =
      forgiven-evaluate_predicates
        (check predicate_satisfied (any (predicate_holds c j req) outcomes) checks) predicates
        outcomes
      ∙ rw (forgiven-check predicate_satisfied _ checks) (ground arith)
