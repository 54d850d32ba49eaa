-- ===== src/Claims/DisclosureVerifier/Fields.antt =====
-- About `prove_field` and the loop over the revealed fields of crates/aion-trust-claims/src/
-- disclosure.rs.
use aion_trust.Prelude.{
  ℕ, suc, ◌≡◌, refl, sym, ap, ◌∙◌, ◌⊎◌, inl, inr, some, List, [], ◌∷◌, Bool-cases, get_elem?, All,
  Bytes, Text, bytes_eq, bytes_eq→eq, ok_or, map_err, guard, >>=-eq-ok, map_err-eq-ok, ok_or-eq-ok,
  guard-eq-ok, ok,
}
use aion_trust.Prelude.Map.{Map, get, insert, get-insert}
use aion_trust.Crypto.{Crypto}
use aion_trust.Json.{Json}
use aion_trust.Encoding.Hex.{decode_array}
use aion_trust.Merkle.{field_leaf_hash, root_from_path}
use aion_trust.Claims.Reject.{body_tampered, malformed}
use aion_trust.Claims.Disclosure.{RevealedField}
use aion_trust.Claims.DisclosureVerifier.{
  ProvenField, value, decode_path, prove_field, prove_fields,
}

module _ (c : Crypto) (j : Json) where
  -- The field's key is the schema's at its index, and its salted value recomputes the body root.
  pub record IsProven (field_count : ℕ) (expected : List Text) (body_root : Bytes)
      (f : RevealedField j) : Type 0 where
    pub salt : Bytes
    pub jcs : Bytes
    pub path : List Bytes
    pub in_schema : get_elem? expected f.index ≡ some f.key
    pub salt_decodes : decode_array 32 f.salt ≡ ok salt
    pub canonical : j.to_jcs_bytes f.value ≡ some jcs
    pub path_decodes : decode_path f.audit_path ≡ ok path
    pub committed :
        root_from_path c (field_leaf_hash c f.index f.key salt jcs) f.index field_count path
        ≡ ok body_root

  prove_field-IsProven :
      (field_count : ℕ) (expected : List Text) (body_root : Bytes) (f : RevealedField j)
      {u : Unit {0}}
      → prove_field c j field_count expected body_root f ≡ ok u
      → IsProven field_count expected body_root f
  unfolding prove_field
  prove_field-IsProven field_count expected body_root f e =
      let (k, e1, r1) = >>=-eq-ok (ok_or (get_elem? expected f.index) body_tampered) _ e in
      let (u1, e2, r2) = >>=-eq-ok (guard (bytes_eq k f.key) body_tampered) _ r1 in
      let (salt, e3, r3) = >>=-eq-ok (map_err (decode_array 32 f.salt) malformed) _ r2 in
      let (jcs, e4, r4) = >>=-eq-ok (ok_or (j.to_jcs_bytes f.value) malformed) _ r3 in
      let (path, e5, r5) = >>=-eq-ok (decode_path f.audit_path) _ r4 in
      let (root, e6, r6) =
        >>=-eq-ok
          (map_err
            (root_from_path c (field_leaf_hash c f.index f.key salt jcs) f.index field_count path)
            body_tampered)
          _ r5 in
      let same_key = bytes_eq→eq k f.key (guard-eq-ok (bytes_eq k f.key) body_tampered e2) in
      let same_root =
        bytes_eq→eq root body_root (guard-eq-ok (bytes_eq root body_root) body_tampered r6) in
      record {
        salt = salt;
        jcs = jcs;
        path = path;
        in_schema = ok_or-eq-ok (get_elem? expected f.index) body_tampered e1 ∙ ap some same_key;
        salt_decodes = map_err-eq-ok (decode_array 32 f.salt) malformed e3;
        canonical = ok_or-eq-ok (j.to_jcs_bytes f.value) malformed e4;
        path_decodes = e5;
        committed =
            map_err-eq-ok
              (root_from_path c (field_leaf_hash c f.index f.key salt jcs) f.index field_count path)
              body_tampered e6
            ∙ ap ok same_root;
      }

  -- A revealed field with this key and this value.
  pub record IsRevealed (fields : List (RevealedField j)) (key : Text) (v : ProvenField j)
      : Type 0 where
    pub at : ℕ
    pub revealed : RevealedField j
    pub listed : get_elem? fields at ≡ some revealed
    pub same_key : revealed.key ≡ key
    pub same_value : value revealed.value ≡ v

  later_field :
      (f : RevealedField j) (fields : List (RevealedField j)) (key : Text) (v : ProvenField j)
      → IsRevealed fields key v
      → IsRevealed (f ∷ fields) key v
  later_field f fields key v r = record {
    at = suc r.at;
    revealed = r.revealed;
    listed = r.listed;
    same_key = r.same_key;
    same_value = r.same_value;
  }

  first_or_before :
      (f : RevealedField j) (fields : List (RevealedField j)) (proven : Map (ProvenField j))
      (key : Text) (v : ProvenField j)
      → get key (insert f.key (value f.value) proven) ≡ some v
      → IsRevealed (f ∷ fields) key v ⊎ (get key proven ≡ some v)
  first_or_before f fields proven key v e =
      let got = sym (get-insert f.key key (value f.value) proven) ∙ e in
      elim (Bool-cases (bytes_eq f.key key)) [
        | inl same ↦ inl (record {
          at = 0;
          revealed = f;
          listed = refl;
          same_key = bytes_eq→eq f.key key same;
          same_value = cc (rw same at got);
        })
        | inr other ↦ inr (rw other at got)
      ]

  -- The loop proves every field, and what it collects was revealed.
  pub prove_fields_lem :
      (field_count : ℕ) (expected : List Text) (body_root : Bytes) (fields : List (RevealedField j))
      (proven : Map (ProvenField j)) {out : Map (ProvenField j)}
      → prove_fields c j field_count expected body_root fields proven ≡ ok out
      → All (IsProven field_count expected body_root) fields
        × ((key : Text) (v : ProvenField j)
            → get key out ≡ some v
            → IsRevealed fields key v ⊎ (get key proven ≡ some v))
  unfolding prove_fields
  prove_fields_lem field_count expected body_root [] proven {out} e = (tt, λ key v h. inr (cc e))
  prove_fields_lem field_count expected body_root (f ∷ fields) proven {out} e =
      let (u, e1, rest) = >>=-eq-ok (prove_field c j field_count expected body_root f) _ e in
      let (facts, origin) =
        prove_fields_lem field_count expected body_root fields (insert f.key (value f.value) proven)
          rest in
      (
        (prove_field-IsProven field_count expected body_root f e1, facts),
        λ key v h. elim (origin key v h) [
          | inl here ↦ inl (later_field f fields key v here)
          | inr before ↦ first_or_before f fields proven key v before
        ],
      )
