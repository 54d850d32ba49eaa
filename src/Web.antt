-- ===== src/Web.antt =====
-- The state of the web demonstration and its handlers: state.rs, issuer.rs, wallet.rs and verifier.rs of
-- crates/aion-trust-web/src. A handler is a function of the parsed form, of the clock and of the
-- CSPRNG draws, on the state behind the lock; the pages that it renders are left out.
pub mod Seed
pub mod Walkthrough
pub mod Requests
pub mod Kept
pub mod Revoked
pub mod Red
use aion_trust.Prelude.{
  ℕ, ◌+◌, ◌%◌, ◌^◌, Option, none, some, List, [], ◌∷◌, if◌then◌else◌, Bytes, Text, codes, bytes_eq,
  contains, Result, ok, err,
}
use aion_trust.Prelude.Int.{ℤ, pos}
use aion_trust.Prelude.Map.{Map, insert}
use aion_trust.Crypto.{Crypto}
use aion_trust.Json.{Json}
use aion_trust.Encoding.Hex.{TrustError}
use aion_trust.Identity.{ClaimId, Timestamp, identity_did}
use aion_trust.Claims.Reject.{ClaimReject}
use aion_trust.Claims.Bodies.{ClaimBody}
use aion_trust.Claims.Claim.{Claim, Draws, Validity, issue}
use aion_trust.Claims.Disclosure.{FieldSelector, all, only}
use aion_trust.Claims.Predicate.{PredicateRequest}
use aion_trust.Claims.Presentation.{Presentation}
use aion_trust.Claims.Report.{VerificationReport}
use aion_trust.Claims.Nonce.{InMemoryNonceStore, in_memory, verify_presentation_with_store}
use aion_trust.Registry.{Registry, revoke, set_epoch, registry_anchor}
use aion_trust.Wallet as Held
use aion_trust.Wallet.{ClaimSelection, WalletError, Wallet}

-- Why an issuance failed.
pub data IssueError : Type 0 where
  unknown_category no_issuer issue_failed : IssueError

abbrev pub default_ttl : ℤ
default_ttl = pos 604800

module _ (c : Crypto) (j : Json) where
  pub record IssuerSlot : Type 0 where
    pub identity : c.SigningKey
    pub label : Text
    pub categories : List Text

  -- The issuers stand in the order in which the hash map yields them.
  pub record AppState : Type 0 where
    pub epoch : ℕ
    pub registry : Registry c
    pub issuers : List IssuerSlot
    pub employer : c.SigningKey
    pub wallet : Wallet c j
    pub nonces : InMemoryNonceStore
    pub last_presentation : Option (Presentation c j)
    pub claim_labels : Map Text

  -- `iter().find(|s| s.categories.contains(category))`.
  unfoldable pub accredited_for : Text → List IssuerSlot → Option IssuerSlot
  unfolding contains
  accredited_for category [] = none
  accredited_for category (slot ∷ slots) =
      if contains slot.categories category then some slot else accredited_for category slots

  -- `.or_else(|| issuers.keys().next())`.
  unfoldable pub or_first : Option IssuerSlot → List IssuerSlot → Option IssuerSlot
  or_first (some slot) slots = some slot
  or_first none [] = none
  or_first none (slot ∷ slots) = some slot

  unfoldable pub issuer_for : Text → List IssuerSlot → Option IssuerSlot
  unfolding accredited_for or_first
  issuer_for category slots = or_first (accredited_for category slots) slots

  unfoldable pub label_for : Text → Text
  unfolding bytes_eq
  label_for category =
      if bytes_eq category (codes "employment")
      then codes "Employment claim"
      else if bytes_eq category (codes "education")
      then codes "Education claim"
      else if bytes_eq category (codes "background_check")
      then codes "Background check"
      else codes "Claim"

  -- The end of `do_issue`, of the issued claim.
  unfoldable pub record_issued :
      AppState → Text → Result ClaimReject Claim → Result IssueError Text × AppState
  unfolding label_for insert Held.add
  record_issued app category (err e) = (err issue_failed, app)
  record_issued app category (ok claim) = (
    ok (label_for category),
    record app {
      claim_labels = insert claim.claim_id (label_for category) app.claim_labels;
      wallet = Held.add c j claim app.wallet;
    },
  )

  unfoldable pub issue_by :
      AppState → Text → ClaimBody → Draws → Option IssuerSlot → Result IssueError Text × AppState
  unfolding issue record_issued Held.did
  issue_by app category body draws none = (err no_issuer, app)
  issue_by app category body draws (some slot) = record_issued app category (
      issue c j draws slot.identity (Held.did c j app.wallet)
        (record { from = pos 0; until = none }) body)

  -- `do_issue` behind `body_from_form`, of the form's category and body.
  unfoldable pub do_issue : AppState → Text → ClaimBody → Draws → Result IssueError Text × AppState
  unfolding issuer_for issue_by
  do_issue app category body draws =
      issue_by app category body draws (issuer_for category app.issuers)

  -- The handler `revoke`.
  unfoldable pub revoke_claim : AppState → ClaimId → AppState
  unfolding revoke
  revoke_claim app claim_id = record app { registry = revoke c claim_id app.epoch app.registry }

  -- The handler `advance_epoch`, on a `u64`.
  unfoldable pub advance_epoch : AppState → AppState
  unfolding set_epoch
  advance_epoch app =
      let e = (app.epoch + 1) % 2 ^ 64 in
      record app { epoch = e; registry = set_epoch c e app.registry }

  -- The state that `store_or_warn` leaves.
  unfoldable pub store_or_warn : AppState → Result (WalletError j) (Presentation c j) → AppState
  store_or_warn app (ok p) = record app { last_presentation = some p }
  store_or_warn app (err e) = app

  unfoldable pub handle_present :
      AppState → List Text → Text → ℤ → Timestamp → Bytes × Bytes → AppState
  unfolding store_or_warn Held.present_all identity_did
  handle_present app claim_ids purpose ttl now draws = store_or_warn app (
      Held.present_all c j app.wallet (identity_did c app.employer) purpose claim_ids ttl now draws)

  unfoldable pub selector_of : List Text → FieldSelector
  selector_of [] = all
  selector_of (f ∷ fields) = only (f ∷ fields)

  unfoldable pub handle_disclose :
      AppState → Text → List Text → Text → Timestamp → Bytes × Bytes → AppState
  unfolding store_or_warn Held.present selector_of identity_did
  handle_disclose app claim_id fields purpose now draws = store_or_warn app (
      Held.present c j app.wallet (identity_did c app.employer) purpose
        (record { claim_id = claim_id; fields = selector_of fields } ∷ []) default_ttl now draws)

  unfoldable pub handle_satisfy :
      AppState → List (PredicateRequest j) → Text → Timestamp → Bytes × Bytes → AppState
  unfolding store_or_warn Held.satisfy identity_did
  handle_satisfy app requests purpose now draws = store_or_warn app (
      Held.satisfy c j app.wallet (identity_did c app.employer) purpose requests default_ttl now
        draws)

  unfoldable pub verify_pending :
      AppState
      → List (PredicateRequest j)
      → Timestamp
      → Option (Presentation c j)
      → Option (Result TrustError VerificationReport) × AppState
  unfolding set_epoch registry_anchor verify_presentation_with_store identity_did
  verify_pending app preds now none = (none, app)
  verify_pending app preds now (some p) =
      let registry = set_epoch c app.epoch app.registry in
      let (verdict, nonces) =
        verify_presentation_with_store c j in_memory p (identity_did c app.employer) now
          (registry_anchor c registry) app.nonces preds in
      (some verdict, record app { registry = registry; nonces = nonces })

  -- `run_verify` behind the parsing of the predicates: a verdict when a presentation is pending.
  unfoldable pub run_verify :
      AppState
      → List (PredicateRequest j)
      → Timestamp
      → Option (Result TrustError VerificationReport) × AppState
  unfolding verify_pending
  run_verify app preds now = verify_pending app preds now app.last_presentation
