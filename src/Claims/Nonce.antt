-- ===== src/Claims/Nonce.antt =====
-- crates/aion-trust-claims/src/nonce.rs: single-use nonces. The trait is a record over the store's
-- type; a `&mut self` method returns the new store.
pub mod Memory
pub mod Replay
pub mod Refines
use aion_trust.Prelude.{
  Bool, false, ◌&&◌, ◌||◌, List, [], ◌∷◌, if◌then◌else◌, filter, Text, bytes_eq, Result, ok, err,
}
use aion_trust.Prelude.Int.{leb_ℤ, leb_ℤ}
use aion_trust.Crypto.{Crypto}
use aion_trust.Json.{Json}
use aion_trust.Encoding.Hex.{TrustError}
use aion_trust.Identity.{Did, Timestamp}
use aion_trust.Claims.Predicate.{PredicateRequest}
use aion_trust.Claims.Anchor.{TrustAnchor}
use aion_trust.Claims.Report.{VerificationReport}
use aion_trust.Claims.Presentation.{Presentation}
use aion_trust.Claims.PresentationVerifier.{verify_presentation_with_predicates}

pub record NonceStore (S : Type 0) : Type 0 where
  pub seen : S → Did → Text → Bool
  pub remember : S → Did → Text → Timestamp → S

-- An entry `(audience, nonce) -> expires_at` of the in-memory store.
pub record Seen : Type 0 where
  pub audience : Did
  pub nonce : Text
  pub expires_at : Timestamp

abbrev pub InMemoryNonceStore : Type 0
InMemoryNonceStore = List Seen

abbrev pub is_entry : Did → Text → Seen → Bool
is_entry audience nonce e = bytes_eq e.audience audience && bytes_eq e.nonce nonce

-- `contains_key` and `insert` of the store's `HashMap`.
unfoldable pub seen : InMemoryNonceStore → Did → Text → Bool
unfolding bytes_eq
seen [] audience nonce = false
seen (e ∷ store) audience nonce = is_entry audience nonce e || seen store audience nonce

unfoldable pub remember : InMemoryNonceStore → Did → Text → Timestamp → InMemoryNonceStore
unfolding bytes_eq
remember [] audience nonce expires_at =
    record { audience = audience; nonce = nonce; expires_at = expires_at } ∷ []
remember (e ∷ store) audience nonce expires_at =
    if is_entry audience nonce e
    then record e { expires_at = expires_at } ∷ store
    else e ∷ remember store audience nonce expires_at

unfoldable pub evict_expired : InMemoryNonceStore → Timestamp → InMemoryNonceStore
evict_expired store now = filter (λ e. leb_ℤ now e.expires_at) store

abbrev pub in_memory : NonceStore InMemoryNonceStore
in_memory = record { seen = seen; remember = remember }

-- The end of `verify_presentation_with_store`: an error returns before the store is written.
unfoldable pub settle :
    {S : Type 0}
    → NonceStore S
    → S
    → Did
    → Text
    → Timestamp
    → Result TrustError VerificationReport
    → Result TrustError VerificationReport × S
settle ops store audience nonce expires_at (err e) = (err e, store)
settle ops store audience nonce expires_at (ok report) =
    (ok report, if report.accepted then ops.remember store audience nonce expires_at else store)

module _ (c : Crypto) (j : Json) where
  unfoldable pub verify_presentation_with_store :
      {S : Type 0}
      → NonceStore S
      → Presentation c j
      → Did
      → Timestamp
      → TrustAnchor c
      → S
      → List (PredicateRequest j)
      → Result TrustError VerificationReport × S
  unfolding verify_presentation_with_predicates settle
  verify_presentation_with_store ops p audience now anchor store predicates =
      settle ops store audience p.nonce p.expires_at (
        verify_presentation_with_predicates c j p audience now anchor
          (ops.seen store audience p.nonce) predicates)
