-- ===== src/Tests/Registries.antt =====
-- The registry's theorems on a registry with one accreditor and one accredited issuer.
use aion_trust.Prelude.{
  suc, ◌≡◌, refl, ◌≢◌, ◌↔◌, Bool, true, none, [], ◌∷◌, leb, if◌then◌else◌, replicate, Text, codes,
  bytes_eq, contains,
}
use aion_trust.Prelude.Int.{pos}
use aion_trust.Prelude.Map.{less, get}
use aion_trust.Crypto.Toy.{toy, toy_laws, mix, key_of, key_byte}
use aion_trust.Identity.{Did, identity_did}
use aion_trust.Claims.Anchor
use aion_trust.Claims.Anchor.{ClaimStatus}
use aion_trust.Registry.{
  issued, revoked, Accreditation, PolicyRule, Registry, new_accreditation, new_registry, endorse,
  register_accreditor, require_accreditation, add_accreditation, revoke, set_epoch,
  distinct_endorsers, valid_endorsements, is_accredited, is_revoked_at_epoch, ledger_record,
  registry_anchor,
}
use aion_trust.Registry.Accredited.{IsAccredited, is_accredited_sound, valid_endorsements-endorse}
use aion_trust.Registry.Revocation.{is_revoked-revoke, ledger_agrees}

abbrev accreditor : Bool
accreditor = true

unfoldable accreditor_did : Did
unfolding identity_did
accreditor_did = identity_did toy accreditor

abbrev category : Text
category = codes "skill"

abbrev rule : PolicyRule
rule = record {
  k = 1;
  accreditors = codes "did:aion:3a3a3a3a3a3a3a3a3a3a3a3a3a3a3a3a3a3a3a3a3a3a3a3a" ∷ [];
}

unfoldable bare : Accreditation
unfolding new_accreditation
bare = new_accreditation (codes "did:aion:issuer") category 3 none

unfoldable endorsed : Accreditation
unfolding bare endorse
endorsed = endorse toy accreditor bare

unfoldable registry : Registry toy
unfolding endorsed register_accreditor require_accreditation add_accreditation new_registry
registry = add_accreditation toy endorsed (
    require_accreditation toy category rule.k rule.accreditors
      (register_accreditor toy accreditor (new_registry toy 5)))

accredited : is_accredited toy registry (codes "did:aion:issuer") category ≡ true
unfolding is_accredited registry bytes_eq less replicate mix key_of key_byte
accredited = refl

is_accredited_sound_example : IsAccredited toy registry (codes "did:aion:issuer") category
is_accredited_sound_example =
    is_accredited_sound toy registry (codes "did:aion:issuer") category accredited

valid_endorsements-endorse_example :
    valid_endorsements toy registry (endorse toy accreditor bare) rule
    ≡ suc (valid_endorsements toy registry bare rule)
unfolding contains identity_did distinct_endorsers registry get bytes_eq less replicate mix key_of
    key_byte
valid_endorsements-endorse_example =
    valid_endorsements-endorse toy toy_laws registry bare rule accreditor refl refl refl

is_revoked-revoke_example :
    is_revoked_at_epoch toy (set_epoch toy 9 (revoke toy (codes "a1") 8 registry)) (codes "b2") ≡ (
      if bytes_eq (codes "a1") (codes "b2")
      then leb 8 9
      else is_revoked_at_epoch toy (set_epoch toy 9 registry) (codes "b2"))
is_revoked-revoke_example = is_revoked-revoke toy registry (codes "a1") (codes "b2") 8 9

ledger_agrees_example :
    (((ledger_record toy registry (codes "a1")).status ≡ revoked)
      ↔ ((registry_anchor toy registry).is_revoked (codes "a1") (pos 5) ≡ true))
    × (((ledger_record toy registry (codes "a1")).status ≡ issued)
        ↔ ((registry_anchor toy registry).status (codes "a1") (pos 5) ≡ Anchor.live))
    × ((registry_anchor toy registry).status (codes "a1") (pos 5) ≢ Anchor.unresolvable)
ledger_agrees_example = ledger_agrees toy registry (codes "a1") (pos 5)
