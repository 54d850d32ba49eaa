-- ===== src/Web/Requests.antt =====
-- The requests to the demonstration and the acts of its walkthrough, as steps of the state behind
-- the lock (the routes of crates/aion-trust-web/src/lib.rs).
use aion_trust.Prelude.{ℕ, suc, Bool, true, false, ◌||◌, List, Bytes, Text}
use aion_trust.Prelude.Int.{ℤ}
use aion_trust.Crypto.{Crypto}
use aion_trust.Json.{Json}
use aion_trust.Identity.{ClaimId, Timestamp}
use aion_trust.Claims.Bodies.{ClaimBody}
use aion_trust.Claims.Claim.{Draws}
use aion_trust.Claims.Predicate.{PredicateRequest}
use aion_trust.Web.{
  AppState, do_issue, revoke_claim, advance_epoch, handle_present, handle_disclose, handle_satisfy,
  run_verify,
}
use aion_trust.Web.Seed.{Fresh, reset}
use aion_trust.Web.Walkthrough.{walk_start, walk_present, walk_verify, walk_revoke}

module _ (c : Crypto) (j : Json) where
  -- One request, or one act of a walkthrough; the flag tells whether it resets the state. An act
  -- may follow any claim here, as other requests come between the acts of the script.
  pub data Step (app : AppState c j) : Bool → AppState c j → Type 0 where
    issued :
        (category : Text) (body : ClaimBody) (draws : Draws)
        → Step app false (do_issue c j app category body draws).1
    revoked_claim : (claim_id : ClaimId) → Step app false (revoke_claim c j app claim_id)
    advanced : Step app false (advance_epoch c j app)
    presented :
        (claim_ids : List Text) (purpose : Text) (ttl : ℤ) (now : Timestamp) (draws : Bytes × Bytes)
        → Step app false (handle_present c j app claim_ids purpose ttl now draws)
    disclosed :
        (claim_id : Text) (fields : List Text) (purpose : Text) (now : Timestamp)
        (draws : Bytes × Bytes)
        → Step app false (handle_disclose c j app claim_id fields purpose now draws)
    satisfied :
        (requests : List (PredicateRequest j)) (purpose : Text) (now : Timestamp)
        (draws : Bytes × Bytes)
        → Step app false (handle_satisfy c j app requests purpose now draws)
    verified :
        (preds : List (PredicateRequest j)) (now : Timestamp)
        → Step app false (run_verify c j app preds now).1
    was_reset : (fresh : Fresh c j) → Step app true (reset c j fresh app)
    walk_started : (fresh : Fresh c j) → Step app true (walk_start c j fresh app).0
    walk_presented :
        (claim_id : Text) (now : Timestamp) (draws : Bytes × Bytes)
        → Step app false (walk_present c j app claim_id now draws)
    walk_verified : (now : Timestamp) → Step app false (walk_verify c j app now).1
    walk_revoked : (claim_id : ClaimId) → Step app false (walk_revoke c j app claim_id)

  -- So many steps, one after the other, and whether one of them resets the state.
  pub data Steps (app : AppState c j) : ℕ → Bool → AppState c j → Type 0 where
    start : Steps app 0 false app
    next :
        {n : ℕ} {f g : Bool} {before after : AppState c j}
        → Steps app n f before
        → Step before g after
        → Steps app (suc n) (g || f) after
