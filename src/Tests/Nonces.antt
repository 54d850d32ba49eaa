-- ===== src/Tests/Nonces.antt =====
-- The in-memory store against the abstract map, on a store with one nonce.
use aion_trust.Prelude.{◌≡◌, refl, none, [], ◌∷◌, Text, codes}
use aion_trust.Prelude.Int.{ℤ, pos}
use aion_trust.Identity.{Did}
use aion_trust.Claims.Nonce.{InMemoryNonceStore, seen, remember, evict_expired}
use aion_trust.Claims.Nonce.Refines.{
  is_some, unexpired, recorded, expiry, Represents, in_memory-Represents,
}

abbrev one_nonce : InMemoryNonceStore
one_nonce = record { audience = codes "did:aion:a"; nonce = codes "abab"; expires_at = pos 40 } ∷ []

one_nonce-Represents : Represents one_nonce (expiry one_nonce)
unfolding seen
one_nonce-Represents = record { once = (refl, tt); same = λ audience nonce. refl }

in_memory-Represents_example :
    Represents [] (λ audience nonce. none)
    × ((audience : Did) (nonce : Text)
        → seen one_nonce audience nonce ≡ is_some (expiry one_nonce audience nonce))
    × ((audience : Did) (nonce : Text) (t : ℤ)
        → Represents
            (remember one_nonce audience nonce t)
            (recorded audience nonce t (expiry one_nonce)))
    × ((now : ℤ)
        → Represents
            (evict_expired one_nonce now)
            (λ audience nonce. unexpired now (expiry one_nonce audience nonce)))
in_memory-Represents_example =
    in_memory-Represents one_nonce (expiry one_nonce) one_nonce-Represents
