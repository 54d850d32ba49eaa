-- ===== src/Claims/Anchor.antt =====
-- crates/aion-trust-claims/src/anchor.rs: what a verifier consults. The trait is a record.
use aion_trust.Prelude.{Bool, Option, if◌then◌else◌, Text}
use aion_trust.Crypto.{Crypto}
use aion_trust.Identity.{Did, ClaimId, Timestamp}

pub record IssuerStanding : Type 0 where
  pub accredited : Bool
  pub accreditation_required : Bool

pub data ClaimStatus : Type 0 where
  live revoked unresolvable : ClaimStatus

pub record TrustAnchor (c : Crypto) : Type 0 where
  pub issuer_key : Did → Option c.VerifyingKey
  pub standing : Did → Text → Timestamp → IssuerStanding
  pub is_revoked : ClaimId → Timestamp → Bool
  pub status : ClaimId → Timestamp → ClaimStatus

-- The trait's own `status`, from `is_revoked`.
unfoldable pub default_status : (ClaimId → Timestamp → Bool) → ClaimId → Timestamp → ClaimStatus
default_status is_revoked claim_id now = if is_revoked claim_id now then revoked else live
