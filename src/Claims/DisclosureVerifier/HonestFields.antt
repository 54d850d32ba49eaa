-- ===== src/Claims/DisclosureVerifier/HonestFields.antt =====
-- About the fields that `build` of crates/aion-trust-claims/src/disclosure.rs reveals, as
-- `prove_field` checks them.
use aion_trust.Prelude.{
  ℕ, ◌≡◌, refl, sym, ap, subst, ◌∙◌, some, List, [], ◌∷◌, map, length, get_elem?, All, length-map,
  get_elem?-map, get_elem?-map-some, All-places, Bytes, Text, bytes_eq_refl, ok_or, map_err,
  >>=-eq-ok, ok-injective, map_err-eq-ok, ok_or-eq-ok, ok,
}
use aion_trust.Prelude.Map.{Map, insert}
use aion_trust.Crypto.{Crypto, CryptoLaws, IsArray}
use aion_trust.Json.{Json}
use aion_trust.Encoding.Hex.{to_hex}
use aion_trust.Encoding.Hex.RoundTrip.{decode_array-to_hex}
use aion_trust.Merkle.{merkle_root, audit_path, root_from_path}
use aion_trust.Merkle.Complete.{root_from_path-audit_path}
use aion_trust.Merkle.Arrays.{AreArrays, audit_path-AreArrays}
use aion_trust.Claims.Reject.{malformed}
use aion_trust.Claims.Fields.{BodyLeaf, try_u32}
use aion_trust.Claims.Fields.Leaves.{IsLeaf, try_u32-eq-ok}
use aion_trust.Claims.Disclosure.{RevealedField, encode_path, reveal, reveal_all}
use aion_trust.Claims.DisclosureVerifier.{
  ProvenField, value, decode_path, prove_field, prove_fields,
}

pub decode_path-encode_path :
    (p : List Bytes) → All (IsArray 32) p → decode_path (encode_path p) ≡ ok p
unfolding decode_path encode_path
decode_path-encode_path [] h = refl
decode_path-encode_path (x ∷ p) (hx, h) =
    rw (decode_array-to_hex 32 hx, decode_path-encode_path p h) refl

module _ (c : Crypto) (laws : CryptoLaws c) (j : Json) where
  abbrev pub hashes_of : List (BodyLeaf j) → List Bytes
  hashes_of = map (λ (l : BodyLeaf j). l.hash)

  abbrev pub keys_of : List (BodyLeaf j) → List Text
  keys_of = map (λ (l : BodyLeaf j). l.key)

  -- What a leaf's revealed field holds.
  pub record IsRevealOf (leaves : List (BodyLeaf j)) (at : ℕ) (f : RevealedField j) : Type 0 where
    pub leaf : BodyLeaf j
    pub path : List Bytes
    pub there : get_elem? leaves at ≡ some leaf
    pub audited : audit_path c (hashes_of leaves) at ≡ ok path
    pub key_same : f.key ≡ leaf.key
    pub index_same : f.index ≡ at
    pub salt_same : f.salt ≡ to_hex leaf.salt
    pub value_same : f.value ≡ leaf.value
    pub path_same : f.audit_path ≡ encode_path path

  pub reveal-IsRevealOf :
      (leaves : List (BodyLeaf j)) (at : ℕ) {f : RevealedField j}
      → reveal c j leaves at ≡ ok f
      → IsRevealOf leaves at f
  unfolding reveal
  reveal-IsRevealOf leaves at {f} e =
      let (leaf, e1, r1) = >>=-eq-ok (ok_or (get_elem? leaves at) malformed) _ e in
      let (path, e2, r2) =
        >>=-eq-ok (map_err (audit_path c (hashes_of leaves) at) malformed) _ r1 in
      let (index, e3, r3) = >>=-eq-ok (try_u32 at) _ r2 in
      let same = ok-injective r3 in
      record {
        leaf = leaf;
        path = path;
        there = ok_or-eq-ok (get_elem? leaves at) malformed e1;
        audited = map_err-eq-ok (audit_path c (hashes_of leaves) at) malformed e2;
        key_same = sym (ap (λ (x : RevealedField j). x.key) same);
        index_same =
            sym (ap (λ (x : RevealedField j). x.index) same) ∙ try_u32-eq-ok c laws j at e3;
        salt_same = sym (ap (λ (x : RevealedField j). x.salt) same);
        value_same = sym (ap (λ (x : RevealedField j). x.value) same);
        path_same = sym (ap (λ (x : RevealedField j). x.audit_path) same);
      }

  module _ (leaves : List (BodyLeaf j)) (root : Bytes)
      (genuine : (i : ℕ) (leaf : BodyLeaf j)
        → get_elem? leaves i ≡ some leaf
        → IsLeaf c laws j i leaf)
      (committed : merkle_root c (hashes_of leaves) ≡ ok root) where
    pub hashes_AreArrays : AreArrays c laws (hashes_of leaves)
    hashes_AreArrays = All-places (IsArray 32) (hashes_of leaves) (λ i hash at.
        let (leaf, there, same) = get_elem?-map (λ (l : BodyLeaf j). l.hash) leaves i at in
        subst (IsArray 32) same (genuine i leaf there).hash_array)

    recomputed :
        (at : ℕ) (leaf : BodyLeaf j) (p : List Bytes)
        → get_elem? leaves at ≡ some leaf
        → audit_path c (hashes_of leaves) at ≡ ok p
        → root_from_path c leaf.hash at (length leaves) p ≡ ok root
    recomputed at leaf p there audited =
        let (q, e, same) =
          root_from_path-audit_path c (hashes_of leaves) at leaf.hash
            (get_elem?-map-some (λ (l : BodyLeaf j). l.hash) leaves at there) in
        let p_q = ok-injective (sym audited ∙ e) in
        ap (λ n. root_from_path c leaf.hash at n p)
          (sym (length-map (λ (l : BodyLeaf j). l.hash) leaves))
        ∙ ap (root_from_path c leaf.hash at (length (hashes_of leaves))) p_q
        ∙ same
        ∙ committed

    -- A revealed field of the issuer's leaves is proven.
    pub prove_field-reveal :
        (at : ℕ) {f : RevealedField j}
        → reveal c j leaves at ≡ ok f
        → prove_field c j (length leaves) (keys_of leaves) root f ≡ ok tt
    unfolding prove_field
    prove_field-reveal at {f} e =
        let r = reveal-IsRevealOf leaves at e in
        let il = genuine at r.leaf r.there in
        rw
          (
            r.index_same,
            get_elem?-map-some (λ (l : BodyLeaf j). l.key) leaves at r.there,
            r.key_same,
            bytes_eq_refl r.leaf.key,
            r.salt_same,
            decode_array-to_hex 32 il.salted,
            r.value_same,
            il.canonical,
            r.path_same,
            decode_path-encode_path r.path
                (audit_path-AreArrays c laws (hashes_of leaves) at hashes_AreArrays r.audited),
            ← il.hashed,
            recomputed at r.leaf r.path r.there r.audited,
            bytes_eq_refl root,
          )
          refl

    pub prove_fields-reveal_all :
        (indices : List ℕ) (proven : Map (ProvenField j)) {fields : List (RevealedField j)}
        → reveal_all c j leaves indices ≡ ok fields
        → (out : Map (ProvenField j)) × (prove_fields c j
              (length leaves)
              (keys_of leaves)
              root
              fields
              proven
            ≡ ok out)
    unfolding reveal_all prove_fields
    prove_fields-reveal_all [] proven e = (proven, rw (← ok-injective e) refl)
    prove_fields-reveal_all (at ∷ indices) proven e =
        let (f, e1, r1) = >>=-eq-ok (reveal c j leaves at) _ e in
        let (fields, e2, r2) = >>=-eq-ok (reveal_all c j leaves indices) _ r1 in
        let (out, proves) =
          prove_fields-reveal_all indices (insert f.key (value f.value) proven) e2 in
        (out, rw (← ok-injective r2, prove_field-reveal at e1) proves)
