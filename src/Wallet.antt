-- ===== src/Wallet.antt =====
-- crates/aion-trust-wallet/src/lib.rs: the subject's wallet, which holds an identity and the claims
-- issued to it, and discloses chosen fields of them. The CSPRNG draws of `fresh_nonce` are arguments.
pub mod Present
pub mod Satisfy
pub mod Storage
use aion_trust.Prelude.{
  Bool, true, false, ◌&&◌, Option, none, some, List, [], ◌∷◌, ◌++◌, map, if◌then◌else◌, Bytes, Text,
  bytes_eq, contains, Result, ok_or, guard, map_err_with, ok, err, ◌>>=◌, ◌>>◌,
}
use aion_trust.Prelude.Int.{ℤ}
use aion_trust.Crypto.{Crypto}
use aion_trust.Json.{Json}
use aion_trust.Encoding.Hex.{TrustError}
use aion_trust.Identity.{
  Did, ClaimId, Timestamp, plus_seconds, identity_did, identity_from_secret_hex,
}
use aion_trust.Claims.Reject.{ClaimReject, malformed}
use aion_trust.Claims.Bodies.{category, field_keys_for_category}
use aion_trust.Claims.Claim.{Claim, field_value}
use aion_trust.Claims.Disclosure.{FieldSelector, all, only, DisclosedClaim, disclose}
use aion_trust.Claims.Predicate.{PredicateRequest, evaluate}
use aion_trust.Claims.Presentation.{Presentation, build_presentation}

pub record ClaimSelection : Type 0 where
  pub claim_id : Text
  pub fields : FieldSelector

-- `result.ok().unwrap_or(false)`.
unfoldable pub ok_or_false : Result ClaimReject Bool → Bool
ok_or_false (ok b) = b
ok_or_false (err e) = false

module _ (j : Json) where
  -- `UnsatisfiablePredicate` carries the request, of which the code keeps the label.
  pub data WalletError : Type 0 where
    empty_selection : WalletError
    unknown_field : Text → Text → WalletError
    unknown_claim : Text → WalletError
    build_error : ClaimReject → WalletError
    unsatisfiable_predicate : PredicateRequest j → WalletError

  -- The loop of `validate_selector` over the selected keys.
  unfoldable pub validate_keys : ClaimId → List Text → List Text → Result WalletError (Unit {0})
  unfolding contains
  validate_keys claim_id known [] = ok tt
  validate_keys claim_id known (key ∷ keys) = do
    guard (contains known key) (unknown_field claim_id key)
    validate_keys claim_id known keys

  unfoldable pub validate_selector : Claim → FieldSelector → Result WalletError (Unit {0})
  unfolding validate_keys field_keys_for_category category
  validate_selector claim all = ok tt
  validate_selector claim (only []) = err empty_selection
  validate_selector claim (only (key ∷ keys)) = do
    known ← ok_or (field_keys_for_category (category claim.body)) (build_error malformed)
    validate_keys claim.claim_id known (key ∷ keys)

  unfoldable pub find_claim : Text → List Claim → Option Claim
  unfolding bytes_eq
  find_claim claim_id [] = none
  find_claim claim_id (claim ∷ claims) =
      if bytes_eq claim.claim_id claim_id then some claim else find_claim claim_id claims

  -- `.and_then(..).unwrap_or(false)` of the test in `find_satisfying`.
  unfoldable pub value_satisfies : PredicateRequest j → Option j.Value → Bool
  unfolding evaluate ok_or_false
  value_satisfies req none = false
  value_satisfies req (some v) = ok_or_false (evaluate j req.op v req.bound)

-- `fresh_nonce`, of its two draws.
unfoldable pub fresh_nonce : Bytes → Bytes → Bytes
fresh_nonce n1 n2 = n1 ++ n2

unfoldable pub is_empty : List ClaimSelection → Bool
is_empty [] = true
is_empty (s ∷ selections) = false

module _ (c : Crypto) (j : Json) where
  pub record Wallet : Type 0 where
    pub identity : c.SigningKey
    pub claims : List Claim

  -- `generate`, of the fresh identity.
  unfoldable pub generate : c.SigningKey → Wallet
  generate identity = record { identity = identity; claims = [] }

  unfoldable pub from_secret_hex : Text → Result TrustError Wallet
  unfolding identity_from_secret_hex
  from_secret_hex hex = do
    identity ← identity_from_secret_hex c hex
    ok (record { identity = identity; claims = [] })

  unfoldable pub did : Wallet → Did
  unfolding identity_did
  did w = identity_did c w.identity

  unfoldable pub add : Claim → Wallet → Wallet
  add claim w = record { identity = w.identity; claims = w.claims ++ claim ∷ [] }

  -- `Wallet::claim`.
  unfoldable pub claim : Wallet → Text → Option Claim
  unfolding find_claim
  claim w claim_id = find_claim j claim_id w.claims

  unfoldable pub disclose_all : List Claim → Result (WalletError j) (List (DisclosedClaim j))
  unfolding disclose
  disclose_all [] = ok []
  disclose_all (claim ∷ claims) = do
    d ← map_err_with build_error (disclose c j claim all)
    ds ← disclose_all claims
    ok (d ∷ ds)

  unfoldable pub disclose_selected :
      Wallet → List ClaimSelection → Result (WalletError j) (List (DisclosedClaim j))
  unfolding claim validate_selector disclose
  disclose_selected w [] = ok []
  disclose_selected w (sel ∷ selections) = do
    held ← ok_or (claim w sel.claim_id) (unknown_claim sel.claim_id)
    validate_selector j held sel.fields
    d ← map_err_with build_error (disclose c j held sel.fields)
    ds ← disclose_selected w selections
    ok (d ∷ ds)

  -- `present`, with the draws of `fresh_nonce`.
  unfoldable pub present :
      Wallet
      → Did
      → Text
      → List ClaimSelection
      → ℤ
      → Timestamp
      → Bytes × Bytes
      → Result (WalletError j) (Presentation c j)
  unfolding disclose_all disclose_selected is_empty fresh_nonce build_presentation plus_seconds
  present w audience purpose selections ttl_seconds now (n1, n2) = do
    disclosed ←
        if is_empty selections then disclose_all w.claims else disclose_selected w selections
    ok (
        build_presentation c j w.identity audience purpose (fresh_nonce n1 n2) now
          (plus_seconds now ttl_seconds) disclosed)

  unfoldable pub present_all :
      Wallet
      → Did
      → Text
      → List Text
      → ℤ
      → Timestamp
      → Bytes × Bytes
      → Result (WalletError j) (Presentation c j)
  unfolding present
  present_all w audience purpose claim_ids ttl_seconds now draws =
      present w audience purpose (map (λ id. record { claim_id = id; fields = all }) claim_ids)
        ttl_seconds now draws

  -- The test of `find_satisfying`.
  unfoldable pub satisfies : PredicateRequest j → Claim → Bool
  unfolding bytes_eq category field_value value_satisfies
  satisfies req claim =
      bytes_eq (category claim.body) req.category
      && value_satisfies j req (field_value c j claim req.field)

  unfoldable pub find_satisfying : PredicateRequest j → List Claim → Option Claim
  unfolding satisfies
  find_satisfying req [] = none
  find_satisfying req (claim ∷ claims) =
      if satisfies req claim then some claim else find_satisfying req claims

  -- The loop of `satisfy`.
  unfoldable pub satisfy_each :
      Wallet → List (PredicateRequest j) → Result (WalletError j) (List (DisclosedClaim j))
  unfolding find_satisfying disclose
  satisfy_each w [] = ok []
  satisfy_each w (req ∷ requests) = do
    held ← ok_or (find_satisfying req w.claims) (unsatisfiable_predicate req)
    d ← map_err_with build_error (disclose c j held (only (req.field ∷ [])))
    ds ← satisfy_each w requests
    ok (d ∷ ds)

  unfoldable pub satisfy :
      Wallet
      → Did
      → Text
      → List (PredicateRequest j)
      → ℤ
      → Timestamp
      → Bytes × Bytes
      → Result (WalletError j) (Presentation c j)
  unfolding satisfy_each fresh_nonce build_presentation plus_seconds
  satisfy w audience purpose requests ttl_seconds now (n1, n2) = do
    disclosed ← satisfy_each w requests
    ok (
        build_presentation c j w.identity audience purpose (fresh_nonce n1 n2) now
          (plus_seconds now ttl_seconds) disclosed)
