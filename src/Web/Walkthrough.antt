-- ===== src/Web/Walkthrough.antt =====
-- crates/aion-trust-web/src/walkthrough.rs: the acts of the scripted walkthrough. The lock is taken
-- for one act at a time, so that other requests come between two acts; what an act tells the page is
-- left out.
use aion_trust.Prelude.{Option, none, some, List, [], ◌∷◌, Bytes, Text, codes, Result, ok, err}
use aion_trust.Prelude.Int.{pos}
use aion_trust.Crypto.{Crypto}
use aion_trust.Json.{Json}
use aion_trust.Encoding.Hex.{TrustError}
use aion_trust.Identity.{ClaimId, Timestamp, identity_did}
use aion_trust.Claims.Claim.{Claim}
use aion_trust.Claims.Presentation.{Presentation}
use aion_trust.Claims.Report.{VerificationReport}
use aion_trust.Claims.Nonce.{in_memory, verify_presentation_with_store}
use aion_trust.Registry.{revoke, set_epoch, registry_anchor}
use aion_trust.Wallet as Held
use aion_trust.Wallet.{WalletError}
use aion_trust.Web.{AppState}
use aion_trust.Web.Seed.{Fresh, reset}

module _ (c : Crypto) (j : Json) where
  -- The `if let Ok(p)` of `present`.
  unfoldable pub keep_presented :
      AppState c j → Result (WalletError j) (Presentation c j) → AppState c j
  keep_presented app (ok p) = record app { last_presentation = some p }
  keep_presented app (err e) = app

  unfoldable pub walk_present : AppState c j → Text → Timestamp → Bytes × Bytes → AppState c j
  unfolding keep_presented Held.present_all identity_did
  walk_present app claim_id now draws = keep_presented app (
      Held.present_all c j app.wallet (identity_did c app.employer) (codes "walkthrough")
        (claim_id ∷ []) (pos 3600) now draws)

  -- `verify` behind the `let Some(p) = .. else`.
  unfoldable pub walk_verdict :
      AppState c j
      → Timestamp
      → Option (Presentation c j)
      → Option (Result TrustError VerificationReport) × AppState c j
  unfolding set_epoch registry_anchor verify_presentation_with_store identity_did
  walk_verdict app now none = (none, app)
  walk_verdict app now (some p) =
      let registry = set_epoch c app.epoch app.registry in
      let (verdict, nonces) =
        verify_presentation_with_store c j in_memory p (identity_did c app.employer) now
          (registry_anchor c registry) app.nonces [] in
      (some verdict, record app { registry = registry; nonces = nonces })

  unfoldable pub walk_verify :
      AppState c j → Timestamp → Option (Result TrustError VerificationReport) × AppState c j
  unfolding walk_verdict
  walk_verify app now = walk_verdict app now app.last_presentation

  unfoldable pub walk_revoke : AppState c j → ClaimId → AppState c j
  unfolding revoke
  walk_revoke app claim_id = record app { registry = revoke c claim_id app.epoch app.registry }

  -- The claim that the script follows: the first of the wallet.
  unfoldable pub followed : List Claim → Option Text
  followed [] = none
  followed (claim ∷ claims) = some claim.claim_id

  -- Act 0 of `run_script`: the world that it resets to and the claim to follow there.
  unfoldable pub walk_start : Fresh c j → AppState c j → AppState c j × Option Text
  unfolding reset followed
  walk_start fresh app = let seeded = reset c j fresh app in (seeded, followed seeded.wallet.claims)
