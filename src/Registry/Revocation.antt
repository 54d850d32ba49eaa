-- ===== src/Registry/Revocation.antt =====
-- About revocation at an epoch in crates/aion-trust-registry/src/lib.rs, as the anchor and
-- as the ledger record see it.
use aion_trust.Prelude.{ℕ, ◌≤◌, ◌≡◌, ◌≢◌, ◌↔◌, true, arith, leb, if◌then◌else◌, Text, bytes_eq}
use aion_trust.Prelude.Map.{get-insert}
use aion_trust.Crypto.{Crypto}
use aion_trust.Identity.{Timestamp}
use aion_trust.Claims.Anchor
use aion_trust.Claims.Anchor.{ClaimStatus, default_status}
use aion_trust.Registry.{
  issued, revoked, Registry, revoke, set_epoch, is_revoked_at_epoch, ledger_record, registry_anchor,
}

module _ (c : Crypto) where
  -- At every epoch, a claim marked revoked as of `at` is revoked exactly from `at` on, and the
  -- status of every other claim is what it was.
  pub is_revoked-revoke :
      (r : Registry c) (claim_id other : Text) (at now : ℕ)
      → is_revoked_at_epoch c (set_epoch c now (revoke c claim_id at r)) other ≡ (
          if bytes_eq claim_id other
          then leb at now
          else is_revoked_at_epoch c (set_epoch c now r) other)
  unfolding is_revoked_at_epoch set_epoch revoke
  is_revoked-revoke r claim_id other at now = ground (arith, get-insert claim_id other at r.revoked)

  -- Time does not undo a revocation: what is revoked at an epoch is revoked at every later one.
  pub is_revoked-set_epoch :
      (r : Registry c) (claim_id : Text) (now later : ℕ)
      → now ≤ later
      → is_revoked_at_epoch c (set_epoch c now r) claim_id ≡ true
      → is_revoked_at_epoch c (set_epoch c later r) claim_id ≡ true
  unfolding is_revoked_at_epoch set_epoch
  is_revoked-set_epoch r claim_id now later le h = ground arith

  -- The ledger record of a claim, the anchor's `is_revoked` and its `status` agree at every time.
  pub ledger_agrees :
      (r : Registry c) (claim_id : Text) (now : Timestamp)
      → (((ledger_record c r claim_id).status ≡ revoked)
          ↔ ((registry_anchor c r).is_revoked claim_id now ≡ true))
        × (((ledger_record c r claim_id).status ≡ issued)
            ↔ ((registry_anchor c r).status claim_id now ≡ Anchor.live))
        × ((registry_anchor c r).status claim_id now ≢ Anchor.unresolvable)
  unfolding ledger_record registry_anchor is_revoked_at_epoch default_status
  ledger_agrees r claim_id now = ground arith
