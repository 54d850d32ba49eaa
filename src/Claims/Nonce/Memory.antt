-- ===== src/Claims/Nonce/Memory.antt =====
-- What the in-memory store remembers, and what settling a verdict does to it.
use aion_trust.Prelude.{
  ◌≡◌, refl, inl, inr, Bool, true, false, ◌&&◌, [], ◌∷◌, arith, Bool-cases, any, Text,
  bytes_eq_refl, Result, ok, err,
}
use aion_trust.Prelude.Int.{◌≤ℤ◌, ◌≤ℤ◌, leb_ℤ, leb_ℤ}
use aion_trust.Encoding.Hex.{TrustError}
use aion_trust.Identity.{Did, Timestamp}
use aion_trust.Claims.Report.{VerificationReport}
use aion_trust.Claims.Nonce.{
  InMemoryNonceStore, is_entry, seen, remember, evict_expired, in_memory, settle,
}

-- The store holds the nonce, and holds it until `t` at least.
abbrev pub remembers : Did → Text → Timestamp → InMemoryNonceStore → Bool
remembers audience nonce t = any (λ e. is_entry audience nonce e && leb_ℤ t e.expires_at)

pub remembers-seen :
    (audience : Did) (nonce : Text) (t : Timestamp) (store : InMemoryNonceStore)
    → remembers audience nonce t store ≡ true
    → seen store audience nonce ≡ true
unfolding seen
remembers-seen audience nonce t [] h = h
remembers-seen audience nonce t (e ∷ store) h =
    ground (arith, remembers-seen audience nonce t store)

pub remembers-evict :
    (audience : Did) (nonce : Text) (t now : Timestamp) (store : InMemoryNonceStore)
    → now ≤ℤ t
    → remembers audience nonce t store ≡ true
    → remembers audience nonce t (evict_expired store now) ≡ true
unfolding evict_expired
remembers-evict audience nonce t now [] le h = h
remembers-evict audience nonce t now (e ∷ store) le h =
    ground (arith, remembers-evict audience nonce t now store le)

pub remembers-remember_self :
    (audience : Did) (nonce : Text) (t : Timestamp) (store : InMemoryNonceStore)
    → remembers audience nonce t (remember store audience nonce t) ≡ true
unfolding remember
remembers-remember_self audience nonce t [] =
    ground (arith, bytes_eq_refl audience, bytes_eq_refl nonce)
remembers-remember_self audience nonce t (e ∷ store) =
    ground (arith, remembers-remember_self audience nonce t store)

-- Recording a nonce that was not seen keeps what the store remembers.
pub remembers-remember :
    (audience other : Did) (nonce nonce' : Text) (t t' : Timestamp) (store : InMemoryNonceStore)
    → seen store other nonce' ≡ false
    → remembers audience nonce t store ≡ true
    → remembers audience nonce t (remember store other nonce' t') ≡ true
unfolding remember seen
remembers-remember audience other nonce nonce' t t' [] fresh h = cc
remembers-remember audience other nonce nonce' t t' (e ∷ store) fresh h =
    ground (arith, remembers-remember audience other nonce nonce' t t' store)

pub settle-ok :
    (store : InMemoryNonceStore) (audience : Did) (nonce : Text) (t : Timestamp)
    (v : Result TrustError VerificationReport) {r : VerificationReport}
    → (settle in_memory store audience nonce t v).0 ≡ ok r
    → v ≡ ok r
unfolding settle
settle-ok store audience nonce t (ok x) h = h
settle-ok store audience nonce t (err e) h = cc

pub ok-settle :
    (store : InMemoryNonceStore) (audience : Did) (nonce : Text) (t : Timestamp)
    (v : Result TrustError VerificationReport) {r : VerificationReport}
    → v ≡ ok r
    → (settle in_memory store audience nonce t v).0 ≡ ok r
unfolding settle
ok-settle store audience nonce t (ok x) h = h
ok-settle store audience nonce t (err e) h = cc

pub settle-accepted :
    (store : InMemoryNonceStore) (audience : Did) (nonce : Text) (t : Timestamp)
    (v : Result TrustError VerificationReport) (r : VerificationReport)
    → v ≡ ok r
    → r.accepted ≡ true
    → (settle in_memory store audience nonce t v).1 ≡ remember store audience nonce t
unfolding settle
settle-accepted store audience nonce t v r e h = rw (e, settle, h)

-- Whatever the verdict is, a store keeps what it remembers, if an accepted nonce was fresh.
pub remembers-settle :
    (audience other : Did) (nonce nonce' : Text) (t t' : Timestamp) (store : InMemoryNonceStore)
    (v : Result TrustError VerificationReport)
    → ((r : VerificationReport) → v ≡ ok r → r.accepted ≡ true → seen store other nonce' ≡ false)
    → remembers audience nonce t store ≡ true
    → remembers audience nonce t (settle in_memory store other nonce' t' v).1 ≡ true
unfolding settle
remembers-settle audience other nonce nonce' t t' store (err e) fresh h = h
remembers-settle audience other nonce nonce' t t' store (ok r) fresh h =
    elim (Bool-cases r.accepted) [
      | inl yea ↦
          rw yea (remembers-remember audience other nonce nonce' t t' store (fresh r refl yea) h)
      | inr nay ↦ rw nay h
    ]
