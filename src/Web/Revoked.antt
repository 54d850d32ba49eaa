-- ===== src/Web/Revoked.antt =====
-- About the registry behind the handlers of crates/aion-trust-web/src, over any sequence of requests.
use aion_trust.Prelude.{ℕ, suc, ◌+◌, ◌^◌, ◌≤◌, ◌<◌, ◌≡◌, Bool, true, false, ◌||◌, arith, Text}
use aion_trust.Crypto.{Crypto}
use aion_trust.Json.{Json}
use aion_trust.Registry.{is_revoked_at_epoch}
use aion_trust.Web.{AppState}
use aion_trust.Web.Requests.{Steps, start, next}
use aion_trust.Web.Kept.{IsCurrent, Leaves, step-Leaves}

module _ (c : Crypto) (j : Json) where
  -- What a run of `n` steps leaves: a reset in it brings the epoch back below the number of steps;
  -- without one the epoch never decreases, and what was revoked is revoked.
  abbrev pub RunLeaves : AppState c j → ℕ → Bool → AppState c j → Type 0
  RunLeaves app n true after = after.epoch ≤ n
  RunLeaves app n false after =
      (app.epoch ≤ after.epoch)
      × ((id : Text)
          → is_revoked_at_epoch c app.registry id ≡ true
          → is_revoked_at_epoch c after.registry id ≡ true)

  then_Leaves :
      (app before after : AppState c j) (n : ℕ) (f g : Bool)
      → before.epoch ≤ app.epoch + n
      → RunLeaves app n f before
      → Leaves c j before g after
      → IsCurrent c j after
        × (after.epoch ≤ app.epoch + suc n)
        × RunLeaves app (suc n) (g || f) after
  unfolding Leaves
  then_Leaves app before after n f true soon run (current, first) =
      (current, omega (arith, first), omega (arith, first))
  then_Leaves app before after n true false soon run kept =
      (kept.current, omega (arith, soon, kept.one_later), omega (arith, run, kept.one_later))
  then_Leaves app before after n false false soon (no_earlier, stays) kept = (
    kept.current,
    omega (arith, soon, kept.one_later),
    (omega (arith, no_earlier, kept.no_earlier), λ id h. kept.stays id (stays id h)),
  )

  -- From a state whose registry stands at its epoch with all its revocations in force, over any
  -- requests and acts of walkthroughs, resets among them, fewer than would overflow the epoch: the
  -- registry stands at the epoch of the demonstration, all its revocations are in force, and the
  -- epoch grew by one a step at most. If nothing was reset, the epoch did not decrease and a claim
  -- that was revoked is revoked; after a reset the epoch is at most the number of steps.
  pub Steps-revoked :
      (app after : AppState c j) (n : ℕ) (flag : Bool)
      → Steps c j app n flag after
      → IsCurrent c j app
      → app.epoch + n < 2 ^ 64
      → IsCurrent c j after × (after.epoch ≤ app.epoch + n) × RunLeaves app n flag after
  Steps-revoked app after n f start sync small = (sync, omega arith, (omega arith, λ id h. h))
  Steps-revoked app after n f (next {n = m} {f = f_before} {g = g} {before = before} steps step)
        sync small =
      let (current, soon, run) =
        Steps-revoked app before m f_before steps sync (omega (arith, small)) in
      then_Leaves app before after m f_before g soon run
        (step-Leaves c j before after g step current (omega (arith, soon, small)))
