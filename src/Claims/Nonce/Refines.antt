-- ===== src/Claims/Nonce/Refines.antt =====
-- The in-memory store of crates/aion-trust-claims/src/nonce.rs, as the abstract map from an audience and a
-- nonce to the end of the presentation.
use aion_trust.Prelude.{
  ◌≡◌, refl, sym, ap, subst, ◌∙◌, inl, inr, Bool, true, false, ◌&&◌, false≢true, Option, none, some,
  [], ◌∷◌, arith, if◌then◌else◌, Bool-cases, &&-eq-true, Text, bytes_eq, bytes_eq→eq, bytes_eq_refl,
}
use aion_trust.Prelude.Int.{leb_ℤ, leb_ℤ}
use aion_trust.Identity.{Did, Timestamp}
use aion_trust.Claims.Nonce.{Seen, InMemoryNonceStore, is_entry, seen, remember, evict_expired}

-- What the store promises: a map, with no account of how it is kept.
abbrev pub NonceMap : Type 0
NonceMap = Did → Text → Option Timestamp

abbrev pub is_some : Option Timestamp → Bool
is_some none = false
is_some (some t) = true

abbrev pub unexpired : Timestamp → Option Timestamp → Option Timestamp
unexpired now none = none
unexpired now (some t) = if leb_ℤ now t then some t else none

abbrev pub recorded : Did → Text → Timestamp → NonceMap → NonceMap
recorded audience nonce t f other n =
    if bytes_eq audience other && bytes_eq nonce n then some t else f other n

-- The end that the store has for a nonce.
unfoldable pub expiry : InMemoryNonceStore → NonceMap
expiry [] audience nonce = none
expiry (e ∷ store) audience nonce =
    if is_entry audience nonce e then some e.expires_at else expiry store audience nonce

-- Each nonce of an audience stands in the store once.
abbrev pub AreOnce : InMemoryNonceStore → Type 0
AreOnce [] = Unit
AreOnce (e ∷ store) = (seen store e.audience e.nonce ≡ false) × AreOnce store

pub record Represents (store : InMemoryNonceStore) (f : NonceMap) : Type 0 where
  pub once : AreOnce store
  pub same : (audience : Did) (nonce : Text) → expiry store audience nonce ≡ f audience nonce

seen-expiry :
    (store : InMemoryNonceStore) (audience : Did) (nonce : Text)
    → seen store audience nonce ≡ is_some (expiry store audience nonce)
unfolding seen expiry
seen-expiry [] audience nonce = refl
seen-expiry (e ∷ store) audience nonce = elim (Bool-cases (is_entry audience nonce e)) [
  | inl found ↦ rw found refl
  | inr other ↦ rw other (seen-expiry store audience nonce)
]

is_entry-same :
    (audience : Did) (nonce : Text) (e : Seen)
    → is_entry audience nonce e ≡ true
    → (e.audience ≡ audience) × (e.nonce ≡ nonce)
is_entry-same audience nonce e h =
    let (a, n) = &&-eq-true (bytes_eq e.audience audience) _ h in
    (bytes_eq→eq _ _ a, bytes_eq→eq _ _ n)

-- One entry is for one nonce of one audience.
is_entry-other :
    (audience other : Did) (nonce n : Text) (e : Seen)
    → is_entry audience nonce e ≡ false
    → (bytes_eq audience other && bytes_eq nonce n) ≡ true
    → is_entry other n e ≡ false
is_entry-other audience other nonce n e h same =
    let (a, b) = &&-eq-true (bytes_eq audience other) _ same in
    rw (← bytes_eq→eq audience other a, ← bytes_eq→eq nonce n b) h

expiry-remember :
    (store : InMemoryNonceStore) (audience : Did) (nonce : Text) (t : Timestamp) (other : Did)
    (n : Text)
    → expiry (remember store audience nonce t) other n
      ≡ recorded audience nonce t (expiry store) other n
unfolding expiry remember
expiry-remember [] audience nonce t other n = refl
expiry-remember (e ∷ store) audience nonce t other n =
    elim (Bool-cases (is_entry audience nonce e)) [
      | inl found ↦
          let (a_same, n_same) = is_entry-same audience nonce e found in
          rw (found, ← a_same, ← n_same)
            (elim (Bool-cases (is_entry other n e)) [ inl b ↦ rw b refl | inr b ↦ rw b refl ])
      | inr not_it ↦
          rw (not_it, expiry-remember store audience nonce t other n)
            (elim (Bool-cases (bytes_eq audience other && bytes_eq nonce n)) [
              | inl same ↦ rw (same, is_entry-other audience other nonce n e not_it same) refl
              | inr differ ↦ rw differ refl
            ])
    ]

-- What is not in a store is not in it without its expired entries.
seen-evict_expired :
    (store : InMemoryNonceStore) (now : Timestamp) (audience : Did) (nonce : Text)
    → seen store audience nonce ≡ false
    → seen (evict_expired store now) audience nonce ≡ false
unfolding seen evict_expired
seen-evict_expired [] now audience nonce h = refl
seen-evict_expired (e ∷ store) now audience nonce h =
    ground (arith, seen-evict_expired store now audience nonce)

unseen-expiry :
    (store : InMemoryNonceStore) (audience : Did) (nonce : Text)
    → seen store audience nonce ≡ false
    → expiry store audience nonce ≡ none
unseen-expiry store audience nonce h =
    none_of (expiry store audience nonce) (sym (seen-expiry store audience nonce) ∙ h)
  where
    none_of : (o : Option Timestamp) → is_some o ≡ false → o ≡ none
    none_of none h = refl
    none_of (some t) h = absurd (false≢true (sym h))

expiry-evict_expired :
    (store : InMemoryNonceStore) (now : Timestamp) (audience : Did) (nonce : Text)
    → AreOnce store
    → expiry (evict_expired store now) audience nonce ≡ unexpired now (expiry store audience nonce)
unfolding expiry evict_expired
expiry-evict_expired [] now audience nonce h = refl
expiry-evict_expired (e ∷ store) now audience nonce (new, h) =
    let rest = expiry-evict_expired store now audience nonce h in
    elim (Bool-cases (is_entry audience nonce e)) [
      | inl found ↦
          let (a_same, n_same) = is_entry-same audience nonce e found in
          let none_left = unseen-expiry (evict_expired store now) audience nonce (
            seen-evict_expired store now audience nonce (
              subst (λ a. seen store a nonce ≡ false) a_same
                (subst (λ n. seen store e.audience n ≡ false) n_same new))) in
          elim (Bool-cases (leb_ℤ now e.expires_at)) [
            | inl kept ↦ rw (kept, found, kept) refl
            | inr expired ↦ rw (expired, found, expired) none_left
          ]
      | inr other ↦ elim (Bool-cases (leb_ℤ now e.expires_at)) [
        | inl kept ↦ rw (kept, other) rest
        | inr expired ↦ rw (expired, other) rest
      ]
    ]

AreOnce-evict_expired :
    (store : InMemoryNonceStore) (now : Timestamp)
    → AreOnce store
    → AreOnce (evict_expired store now)
unfolding evict_expired
AreOnce-evict_expired [] now h = tt
AreOnce-evict_expired (e ∷ store) now (new, h) = elim (Bool-cases (leb_ℤ now e.expires_at)) [
  | inl kept ↦
      rw kept
        (seen-evict_expired store now e.audience e.nonce new, AreOnce-evict_expired store now h)
  | inr expired ↦ rw expired (AreOnce-evict_expired store now h)
]

seen-remember_other :
    (store : InMemoryNonceStore) (audience : Did) (nonce : Text) (t : Timestamp) (other : Did)
    (n : Text)
    → (bytes_eq audience other && bytes_eq nonce n) ≡ false
    → seen store other n ≡ false
    → seen (remember store audience nonce t) other n ≡ false
unfolding seen remember
seen-remember_other [] audience nonce t other n apart h = ground (arith, apart)
seen-remember_other (e ∷ store) audience nonce t other n apart h =
    ground (arith, seen-remember_other store audience nonce t other n apart)

is_entry-flipped :
    (audience : Did) (nonce : Text) (e : Seen)
    → is_entry audience nonce e ≡ false
    → (bytes_eq audience e.audience && bytes_eq nonce e.nonce) ≡ false
is_entry-flipped audience nonce e h =
    elim (Bool-cases (bytes_eq audience e.audience && bytes_eq nonce e.nonce)) [
      | inl same ↦
          let flipped = is_entry-other audience e.audience nonce e.nonce e h same in
          absurd (false≢true (sym flipped ∙ itself))
      | inr differ ↦ differ
    ]
  where
    itself : is_entry e.audience e.nonce e ≡ true
    itself = rw (bytes_eq_refl e.audience, bytes_eq_refl e.nonce) refl

AreOnce-remember :
    (store : InMemoryNonceStore) (audience : Did) (nonce : Text) (t : Timestamp)
    → AreOnce store
    → AreOnce (remember store audience nonce t)
unfolding remember seen
AreOnce-remember [] audience nonce t h = (refl, tt)
AreOnce-remember (e ∷ store) audience nonce t (new, h) =
    elim (Bool-cases (is_entry audience nonce e)) [
      | inl found ↦ rw found (new, h)
      | inr not_it ↦ rw not_it (
        seen-remember_other store audience nonce t e.audience e.nonce
            (is_entry-flipped audience nonce e not_it) new,
        AreOnce-remember store audience nonce t h,
      )
    ]

-- The in-memory store refines the abstract map: where it represents a map, `seen` asks whether the map has
-- the nonce, recording a nonce represents the map with that nonce, and evicting represents the map
-- without what has expired. The empty store represents the empty map.
pub in_memory-Represents :
    (store : InMemoryNonceStore) (f : NonceMap)
    → Represents store f
    → Represents [] (λ audience nonce. none)
      × ((audience : Did) (nonce : Text) → seen store audience nonce ≡ is_some (f audience nonce))
      × ((audience : Did) (nonce : Text) (t : Timestamp)
          → Represents (remember store audience nonce t) (recorded audience nonce t f))
      × ((now : Timestamp)
          → Represents
              (evict_expired store now)
              (λ audience nonce. unexpired now (f audience nonce)))
unfolding expiry
in_memory-Represents store f r = (
  record { once = tt; same = λ audience nonce. refl },
  λ audience nonce. seen-expiry store audience nonce ∙ ap is_some (r.same audience nonce),
  λ audience nonce t. record {
    once = AreOnce-remember store audience nonce t r.once;
    same = λ other n.
        expiry-remember store audience nonce t other n
        ∙ ap (λ o. if bytes_eq audience other && bytes_eq nonce n then some t else o)
            (r.same other n);
  },
  λ now. record {
    once = AreOnce-evict_expired store now r.once;
    same = λ audience nonce.
        expiry-evict_expired store now audience nonce r.once
        ∙ ap (unexpired now) (r.same audience nonce);
  },
)
