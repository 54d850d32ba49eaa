-- ===== src/Claims/DisclosureVerifier/RelianceLeaves.antt =====
-- About the reliance leaves of `reliance_leaves` in crates/aion-trust-claims/src/reliance.rs.
use aion_trust.Prelude.{
  ℕ, suc, ◌≡◌, refl, sym, ap, subst, ◌∙◌, List, [], ◌∷◌, map, Bytes, >>=-eq-ok, ok-injective, ok,
}
use aion_trust.Crypto.{Crypto, CryptoLaws, IsArray}
use aion_trust.Json.{Json}
use aion_trust.Merkle.{reliance_leaf_hash}
use aion_trust.Claims.Fields.{try_u32}
use aion_trust.Claims.Fields.Leaves.{try_u32-eq-ok}
use aion_trust.Claims.Reliance.{
  ReliesOn, ReliesLeaf, derive_reliance_salt, kind_commit, relies_leaf, reliance_leaves_from,
  reliance_leaves,
}

module _ (c : Crypto) (laws : CryptoLaws c) (j : Json) where
  abbrev pub leaf_hashes : List ReliesLeaf → List Bytes
  leaf_hashes = map (λ (l : ReliesLeaf). l.hash)

  -- A leaf as `reliance_leaves` makes it.
  pub record IsReliesLeaf (l : ReliesLeaf) : Type 0 where
    pub salt_array : IsArray 32 l.salt
    pub kind_array : IsArray 32 l.kind_commit
    pub hash_array : IsArray 32 l.hash
    pub hashed : l.hash ≡ reliance_leaf_hash c l.index l.salt l.from_claim_id l.kind_commit

  relies_leaf-IsReliesLeaf :
      (ms : Bytes) (i : ℕ) (target : ReliesOn) → IsReliesLeaf (relies_leaf c ms i target)
  unfolding relies_leaf derive_reliance_salt kind_commit reliance_leaf_hash
  relies_leaf-IsReliesLeaf ms i target = record {
    salt_array = laws.keyed_hash-IsArray ms _;
    kind_array = laws.hash-IsArray _;
    hash_array = laws.hash-IsArray _;
    hashed = refl;
  }

  -- The leaves stand under their indices, from `n` on.
  abbrev pub AreLeavesFrom : ℕ → List ReliesLeaf → Type 0
  AreLeavesFrom n [] = Unit
  AreLeavesFrom n (l ∷ rest) = (l.index ≡ n) × IsReliesLeaf l × AreLeavesFrom (suc n) rest

  reliance_leaves_from-AreLeavesFrom :
      (ms : Bytes) (n : ℕ) (on : List ReliesOn) {leaves : List ReliesLeaf}
      → reliance_leaves_from c ms n on ≡ ok leaves
      → AreLeavesFrom n leaves
  unfolding reliance_leaves_from
  reliance_leaves_from-AreLeavesFrom ms n [] e = subst (AreLeavesFrom n) (ok-injective e) tt
  reliance_leaves_from-AreLeavesFrom ms n (target ∷ on) e =
      let (i, e1, r1) = >>=-eq-ok (try_u32 n) _ e in
      let (rest, e2, r2) = >>=-eq-ok (reliance_leaves_from c ms (suc n) on) _ r1 in
      subst (AreLeavesFrom n) (ok-injective r2) (
        unfold relies_leaf in try_u32-eq-ok c laws j n e1,
        relies_leaf-IsReliesLeaf ms i target,
        reliance_leaves_from-AreLeavesFrom ms (suc n) on e2,
      )

  pub reliance_leaves-AreLeavesFrom :
      (ms : Bytes) (on : List ReliesOn) {leaves : List ReliesLeaf}
      → reliance_leaves c ms on ≡ ok leaves
      → AreLeavesFrom 0 leaves
  unfolding reliance_leaves
  reliance_leaves-AreLeavesFrom ms on e = reliance_leaves_from-AreLeavesFrom ms 0 on e

  from_claim_ids-reliance_leaves_from :
      (ms : Bytes) (n : ℕ) (on : List ReliesOn) {leaves : List ReliesLeaf}
      → reliance_leaves_from c ms n on ≡ ok leaves
      → map (λ (l : ReliesLeaf). l.from_claim_id) leaves
        ≡ map (λ (r : ReliesOn). r.from_claim_id) on
  unfolding reliance_leaves_from relies_leaf
  from_claim_ids-reliance_leaves_from ms n [] e =
      ap (map (λ (l : ReliesLeaf). l.from_claim_id)) (sym (ok-injective e))
  from_claim_ids-reliance_leaves_from ms n (target ∷ on) e =
      let (i, e1, r1) = >>=-eq-ok (try_u32 n) _ e in
      let (rest, e2, r2) = >>=-eq-ok (reliance_leaves_from c ms (suc n) on) _ r1 in
      ap (map (λ (l : ReliesLeaf). l.from_claim_id)) (sym (ok-injective r2))
      ∙ ap (λ ids. target.from_claim_id ∷ ids)
          (from_claim_ids-reliance_leaves_from ms (suc n) on e2)

  pub from_claim_ids-reliance_leaves :
      (ms : Bytes) (on : List ReliesOn) {leaves : List ReliesLeaf}
      → reliance_leaves c ms on ≡ ok leaves
      → map (λ (l : ReliesLeaf). l.from_claim_id) leaves
        ≡ map (λ (r : ReliesOn). r.from_claim_id) on
  unfolding reliance_leaves
  from_claim_ids-reliance_leaves ms on e = from_claim_ids-reliance_leaves_from ms 0 on e
