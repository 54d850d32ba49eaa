-- ===== src/Claims/Reject.antt =====
-- `ClaimReject` of crates/aion-trust-claims/src/claim.rs: why a claim failed verification.

pub data ClaimReject : Type 0 where
  issuer_key_mismatch body_tampered claim_id_mismatch bad_signature missing_field relies_tampered
        malformed :
      ClaimReject
