-- ===== src/Web/Kept.antt =====
-- About the registry behind the handlers of crates/aion-trust-web/src, over one request.
use aion_trust.Prelude.{
  ℕ, ◌+◌, ◌%◌, ◌^◌, ◌≤◌, ◌<◌, ◌≡◌, refl, sym, ap, ◌∙◌, Bool, true, false, Option, none, some, List,
  arith, Text, Result, ok, err,
}
use aion_trust.Prelude.Map.{get, get-insert}
use aion_trust.Crypto.{Crypto}
use aion_trust.Json.{Json}
use aion_trust.Identity.{ClaimId, Timestamp}
use aion_trust.Claims.Reject.{ClaimReject}
use aion_trust.Claims.Bodies.{ClaimBody}
use aion_trust.Claims.Claim.{Claim, Draws}
use aion_trust.Claims.Nonce.{InMemoryNonceStore}
use aion_trust.Claims.Predicate.{PredicateRequest}
use aion_trust.Claims.Presentation.{Presentation}
use aion_trust.Registry.{Registry, revoke, set_epoch, is_revoked_at_epoch}
use aion_trust.Registry.Revocation.{is_revoked-revoke, is_revoked-set_epoch}
use aion_trust.Wallet.{WalletError}
use aion_trust.Web.{
  AppState, IssuerSlot, issuer_for, issue_by, verify_pending, record_issued, do_issue, revoke_claim,
  advance_epoch, store_or_warn, handle_present, handle_disclose, handle_satisfy, run_verify,
}
use aion_trust.Web.Seed.{Fresh, accredited_issuer, seed, reset}
use aion_trust.Web.Walkthrough.{
  keep_presented, walk_start, walk_present, walk_verdict, walk_verify, walk_revoke,
}
use aion_trust.Web.Requests.{
  Step, issued, revoked_claim, advanced, presented, disclosed, satisfied, verified, was_reset,
  walk_started, walk_presented, walk_verified, walk_revoked,
}

module _ (c : Crypto) (j : Json) where
  -- The registry stands at the epoch of the demonstration, and every revocation that it records is
  -- in force.
  pub record IsCurrent (app : AppState c j) : Type 0 where
    pub same : app.registry.epoch ≡ app.epoch
    pub in_force : (id : Text) (e : ℕ) → get id app.registry.revoked ≡ some e → e ≤ app.epoch

  -- What a step without a reset leaves: the epoch grows by one at most, and what was revoked is
  -- revoked.
  pub record IsKept (app after : AppState c j) : Type 0 where
    pub current : IsCurrent after
    pub no_earlier : app.epoch ≤ after.epoch
    pub one_later : after.epoch ≤ app.epoch + 1
    pub stays :
        (id : Text)
        → is_revoked_at_epoch c app.registry id ≡ true
        → is_revoked_at_epoch c after.registry id ≡ true

  unchanged :
      (app after : AppState c j)
      → IsCurrent app
      → after.registry ≡ app.registry
      → after.epoch ≡ app.epoch
      → IsKept app after
  unchanged app after sync same_registry same_epoch = record {
    current = record {
      same = ap (λ (r : Registry c). r.epoch) same_registry ∙ sync.same ∙ sym same_epoch;
      in_force = λ id e h.
          rw same_epoch (
            sync.in_force id e (sym (ap (λ (r : Registry c). get id r.revoked) same_registry) ∙ h));
    };
    no_earlier = omega (arith, same_epoch);
    one_later = omega (arith, same_epoch);
    stays = λ id h. ap (λ r. is_revoked_at_epoch c r id) same_registry ∙ h;
  }

  stored :
      (app : AppState c j) (built : Result (WalletError j) (Presentation c j))
      → IsCurrent app
      → IsKept app (store_or_warn c j app built)
  unfolding store_or_warn
  stored app (ok p) sync = unchanged app _ sync refl refl
  stored app (err e) sync = unchanged app app sync refl refl

  kept_presented :
      (app : AppState c j) (built : Result (WalletError j) (Presentation c j))
      → IsCurrent app
      → IsKept app (keep_presented c j app built)
  unfolding keep_presented
  kept_presented app (ok p) sync = unchanged app _ sync refl refl
  kept_presented app (err e) sync = unchanged app app sync refl refl

  recorded :
      (app : AppState c j) (category : Text) (r : Result ClaimReject Claim)
      → IsCurrent app
      → IsKept app (record_issued c j app category r).1
  unfolding record_issued
  recorded app category (ok claim) sync = unchanged app _ sync refl refl
  recorded app category (err e) sync = unchanged app app sync refl refl

  issued_by :
      (app : AppState c j) (category : Text) (body : ClaimBody) (draws : Draws)
      (slot : Option (IssuerSlot c j))
      → IsCurrent app
      → IsKept app (issue_by c j app category body draws slot).1
  unfolding issue_by
  issued_by app category body draws none sync = unchanged app app sync refl refl
  issued_by app category body draws (some slot) sync = recorded app category _ sync

  -- A revocation as of now revokes one claim more.
  revoked_more :
      (app : AppState c j) (claim_id : ClaimId)
      → IsCurrent app
      → IsKept app (record app { registry = revoke c claim_id app.epoch app.registry })
  unfolding revoke set_epoch
  revoked_more app claim_id sync = record {
    current = record {
      same = sync.same;
      in_force = λ id e h. ground (
        arith,
        sym (get-insert claim_id id app.epoch app.registry.revoked) ∙ h,
        sync.in_force id e,
      );
    };
    no_earlier = omega arith;
    one_later = omega arith;
    stays = λ id h.
        is_revoked-revoke c app.registry claim_id id app.epoch app.registry.epoch
        ∙ ground (arith, sync.same, h);
  }

  advanced_by_one :
      (app : AppState c j)
      → IsCurrent app
      → app.epoch + 1 < 2 ^ 64
      → IsKept app (advance_epoch c j app)
  unfolding advance_epoch
  advanced_by_one app sync small =
      let one_more : (app.epoch + 1) % 2 ^ 64 ≡ app.epoch + 1 = omega (arith, small) in
      record {
        current = record {
          same = refl;
          in_force = λ id e h. omega (arith, one_more, sync.in_force id e h);
        };
        no_earlier = omega (arith, one_more);
        one_later = omega (arith, one_more);
        stays = λ id h.
            is_revoked-set_epoch c app.registry id app.registry.epoch ((app.epoch + 1) % 2 ^ 64)
              (omega (arith, one_more, sync.same)) h;
      }

  verified_at :
      (app : AppState c j) (nonces : InMemoryNonceStore)
      → IsCurrent app
      → IsKept app (record app { registry = set_epoch c app.epoch app.registry; nonces = nonces })
  unfolding set_epoch
  verified_at app nonces sync = record {
    current = record { same = refl; in_force = sync.in_force };
    no_earlier = omega arith;
    one_later = omega arith;
    stays = λ id h.
        is_revoked-set_epoch c app.registry id app.registry.epoch app.epoch
          (omega (arith, sync.same)) h;
  }

  verified_pending :
      (app : AppState c j) (preds : List (PredicateRequest j)) (now : Timestamp)
      (pending : Option (Presentation c j))
      → IsCurrent app
      → IsKept app (verify_pending c j app preds now pending).1
  unfolding verify_pending
  verified_pending app preds now none sync = unchanged app app sync refl refl
  verified_pending app preds now (some p) sync = verified_at app _ sync

  verified_walk :
      (app : AppState c j) (now : Timestamp) (pending : Option (Presentation c j))
      → IsCurrent app
      → IsKept app (walk_verdict c j app now pending).1
  unfolding walk_verdict
  verified_walk app now none sync = unchanged app app sync refl refl
  verified_walk app now (some p) sync = verified_at app _ sync

  -- A fresh world: nothing is revoked, and the epoch is the first.
  pub seed-IsCurrent :
      (fresh : Fresh c j) → IsCurrent (seed c j fresh) × ((seed c j fresh).epoch ≡ 1)
  unfolding seed accredited_issuer get
  seed-IsCurrent fresh = (record { same = refl; in_force = λ id e h. cc }, refl)

  -- What a step leaves, by whether it resets the state.
  unfoldable pub Leaves : AppState c j → Bool → AppState c j → Type 0
  Leaves app false after = IsKept app after
  Leaves app true after = IsCurrent after × (after.epoch ≡ 1)

  pub step-Leaves :
      (app after : AppState c j) (flag : Bool)
      → Step c j app flag after
      → IsCurrent app
      → app.epoch + 1 < 2 ^ 64
      → Leaves app flag after
  unfolding Leaves do_issue revoke_claim handle_present handle_disclose handle_satisfy run_verify
      reset walk_start walk_present walk_verify walk_revoke
  step-Leaves app after flag (issued category body draws) sync small =
      issued_by app category body draws (issuer_for c j category app.issuers) sync
  step-Leaves app after flag (revoked_claim claim_id) sync small = revoked_more app claim_id sync
  step-Leaves app after flag advanced sync small = advanced_by_one app sync small
  step-Leaves app after flag (presented claim_ids purpose ttl now draws) sync small =
      stored app _ sync
  step-Leaves app after flag (disclosed claim_id fields purpose now draws) sync small =
      stored app _ sync
  step-Leaves app after flag (satisfied requests purpose now draws) sync small = stored app _ sync
  step-Leaves app after flag (verified preds now) sync small =
      verified_pending app preds now app.last_presentation sync
  step-Leaves app after flag (was_reset fresh) sync small = seed-IsCurrent fresh
  step-Leaves app after flag (walk_started fresh) sync small = seed-IsCurrent fresh
  step-Leaves app after flag (walk_presented claim_id now draws) sync small =
      kept_presented app _ sync
  step-Leaves app after flag (walk_verified now) sync small =
      verified_walk app now app.last_presentation sync
  step-Leaves app after flag (walk_revoked claim_id) sync small = revoked_more app claim_id sync
