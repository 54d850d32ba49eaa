-- ===== src/Claims/Report.antt =====
-- The report of crates/aion-trust-claims/src/presentation.rs: named checks and the verdict over
-- them. The free-text `detail` of a check is left out; a check's name is a constructor.
use aion_trust.Prelude.{Bool, true, false, not, ◌&&◌, List, [], ◌∷◌, ◌++◌, all, filter}

-- The literal names of the checks.
pub data CheckName : Type 0 where
  subject_id_binds_to_key audience_matches_verifier unexpired nonce_fresh nonce_sufficiently_long
        discloses_at_least_one_claim subject_signature_valid claim_subject_matches_presenter
        issuer_recognized claim_authentic field_proven_against_body_root claim_within_validity
        issuer_accredited claim_not_revoked reliance_intact reliance_resolvable
        predicate_satisfied :
      CheckName

-- `name == RELIANCE_RESOLVABLE_CHECK`.
unfoldable pub is_reliance_resolvable : CheckName → Bool
is_reliance_resolvable reliance_resolvable = true
is_reliance_resolvable _ = false

pub record Check : Type 0 where
  pub name : CheckName
  pub passed : Bool

-- `check(checks, name, passed, ..)`: one more check at the end.
unfoldable pub check : CheckName → Bool → List Check → List Check
check name passed checks = checks ++ record { name = name; passed = passed } ∷ []

pub record VerificationReport : Type 0 where
  pub accepted : Bool
  pub amber : Bool
  pub checks : List Check

abbrev pub passes : Check → Bool
passes k = k.passed

abbrev pub is_soft : Check → Bool
is_soft k = is_reliance_resolvable k.name

-- The verdict at the end of `verify_presentation_with_predicates`.
unfoldable pub report_of : List Check → VerificationReport
unfolding is_reliance_resolvable
report_of checks =
    let accepted = all passes checks in
    record {
      accepted = accepted;
      amber = not accepted && all is_soft (filter (λ k. not (passes k)) checks);
      checks = checks;
    }
