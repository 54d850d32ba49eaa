-- ===== src/Claims/Fields/Leaves.antt =====
-- About `body_leaves` of crates/aion-trust-claims/src/fields.rs.
use aion_trust.Prelude.{
  ℕ, zero, suc, ◌+◌, ◌^◌, ◌<◌, ◌≡◌, sym, ap, subst, ◌∙◌, none, some, List, [], ◌∷◌, map, arith,
  get_elem?, some-injective, Bytes, Text, ok_or, >>=-eq-ok, ok-injective, ok_or-eq-ok, ok,
}
use aion_trust.Prelude.Map.{Map, keys}
use aion_trust.Crypto.{Crypto, CryptoLaws, IsArray}
use aion_trust.Json.{Json}
use aion_trust.Merkle.{field_leaf_hash}
use aion_trust.Claims.Reject.{malformed}
use aion_trust.Claims.Bodies.{ClaimBody, category, field_keys_for_category}
use aion_trust.Claims.Fields.{
  BodyLeaf, try_u32, derive_field_salt, ordered_fields, leaves_from, body_leaves,
}
use aion_trust.Claims.Fields.Keys.{ordered_fields-keys}

module _ (c : Crypto) (laws : CryptoLaws c) (j : Json) where
  -- The issuer's leaf at an index: its value has a canonical form, which its hash commits to.
  pub record IsLeaf (index : ℕ) (leaf : BodyLeaf j) : Type 0 where
    pub jcs : Bytes
    pub canonical : j.to_jcs_bytes leaf.value ≡ some jcs
    pub hashed : leaf.hash ≡ field_leaf_hash c index leaf.key leaf.salt jcs
    pub salted : IsArray 32 leaf.salt
    pub hash_array : IsArray 32 leaf.hash

  pub field_leaf_hash-IsArray :
      (i : ℕ) (key : Text) (salt jcs : Bytes) → IsArray 32 (field_leaf_hash c i key salt jcs)
  unfolding field_leaf_hash
  field_leaf_hash-IsArray i key salt jcs = laws.hash-IsArray _

  derive_field_salt-IsArray :
      (ms : Bytes) (i : ℕ) (key : Text) → IsArray 32 (derive_field_salt c ms i key)
  unfolding derive_field_salt
  derive_field_salt-IsArray ms i key = laws.keyed_hash-IsArray ms _

  pub try_u32-eq-ok : (n : ℕ) {i : ℕ} → try_u32 n ≡ ok i → i ≡ n
  unfolding try_u32
  try_u32-eq-ok n e = ground arith

  pub try_u32-bound : (n : ℕ) {i : ℕ} → try_u32 n ≡ ok i → n < 2 ^ 32
  unfolding try_u32
  try_u32-bound n e = ground arith

  first_or_rest :
      (ms : Bytes) (n index : ℕ) (key : Text) (value : j.Value) (jcs : Bytes)
      (rest : List (BodyLeaf j))
      → index ≡ n
      → j.to_jcs_bytes value ≡ some jcs
      → ((i : ℕ) (leaf : BodyLeaf j) → get_elem? rest i ≡ some leaf → IsLeaf (suc n + i) leaf)
      → (i : ℕ) {leaf : BodyLeaf j}
      → (let salt = derive_field_salt c ms index key in
          get_elem?
            (record {
              key = key;
              value = value;
              salt = salt;
              hash = field_leaf_hash c index key salt jcs;
            }
              ∷ rest)
            i
          ≡ some leaf)
      → IsLeaf (n + i) leaf
  first_or_rest ms n index key value jcs rest same canonical later zero {leaf} at =
      subst (IsLeaf (n + 0)) (some-injective at) (record {
        jcs = jcs;
        canonical = canonical;
        hashed =
            ap (λ k. field_leaf_hash c k key (derive_field_salt c ms index key) jcs)
              (omega (arith, same));
        salted = derive_field_salt-IsArray ms index key;
        hash_array = field_leaf_hash-IsArray index key _ jcs;
      })
  first_or_rest ms n index key value jcs rest same canonical later (suc i) {leaf} at =
      subst (λ k. IsLeaf k leaf) (omega arith) (later i leaf at)

  leaves_from-IsLeaf :
      (ms : Bytes) (n : ℕ) (entries : Map j.Value) {leaves : List (BodyLeaf j)}
      → leaves_from j c ms n entries ≡ ok leaves
      → (i : ℕ) {leaf : BodyLeaf j} → get_elem? leaves i ≡ some leaf
      → IsLeaf (n + i) leaf
  unfolding leaves_from
  leaves_from-IsLeaf ms n [] e i at =
      absurd (nothing_there (ap (λ ls. get_elem? ls i) (ok-injective e) ∙ at))
    where
      nothing_there : {leaf : BodyLeaf j} → none ≡ some leaf → ⊥
      nothing_there e = cc
  leaves_from-IsLeaf ms n ((key, value) ∷ entries) e i at =
      let (index, e1, r1) = >>=-eq-ok (try_u32 n) _ e in
      let (jcs, e2, r2) = >>=-eq-ok (ok_or (j.to_jcs_bytes value) malformed) _ r1 in
      let (rest, e3, r3) = >>=-eq-ok (leaves_from j c ms (suc n) entries) _ r2 in
      let canonical = ok_or-eq-ok (j.to_jcs_bytes value) malformed e2 in
      first_or_rest ms n index key value jcs rest (try_u32-eq-ok n e1) canonical
        (λ k leaf there. leaves_from-IsLeaf ms (suc n) entries e3 k there) i
        (ap (λ ls. get_elem? ls i) (ok-injective r3) ∙ at)

  pub body_leaves-IsLeaf :
      (ms : Bytes) (body : ClaimBody) {leaves : List (BodyLeaf j)}
      → body_leaves j c ms body ≡ ok leaves
      → (i : ℕ) {leaf : BodyLeaf j} → get_elem? leaves i ≡ some leaf
      → IsLeaf i leaf
  unfolding body_leaves
  body_leaves-IsLeaf ms body e i {leaf} at =
      subst (λ k. IsLeaf k leaf) (omega arith)
        (leaves_from-IsLeaf ms 0 (ordered_fields j body) e i at)

  leaves_from-keys :
      (ms : Bytes) (n : ℕ) (entries : Map j.Value) {leaves : List (BodyLeaf j)}
      → leaves_from j c ms n entries ≡ ok leaves
      → map (λ (l : BodyLeaf j). l.key) leaves ≡ keys entries
  unfolding leaves_from
  leaves_from-keys ms n [] e = ap (map (λ (l : BodyLeaf j). l.key)) (sym (ok-injective e))
  leaves_from-keys ms n ((key, value) ∷ entries) e =
      let (index, e1, r1) = >>=-eq-ok (try_u32 n) _ e in
      let (jcs, e2, r2) = >>=-eq-ok (ok_or (j.to_jcs_bytes value) malformed) _ r1 in
      let (rest, e3, r3) = >>=-eq-ok (leaves_from j c ms (suc n) entries) _ r2 in
      ap (map (λ (l : BodyLeaf j). l.key)) (sym (ok-injective r3))
      ∙ ap (λ ks. key ∷ ks) (leaves_from-keys ms (suc n) entries e3)

  pub body_leaves-keys :
      (ms : Bytes) (body : ClaimBody) {leaves : List (BodyLeaf j)}
      → body_leaves j c ms body ≡ ok leaves
      → field_keys_for_category (category body) ≡ some (map (λ (l : BodyLeaf j). l.key) leaves)
  unfolding body_leaves
  body_leaves-keys ms body e =
      ordered_fields-keys j body ∙ ap some (sym (leaves_from-keys ms 0 (ordered_fields j body) e))
