-- ===== src/Claims/DisclosureVerifier/Selected.antt =====
-- About the selection of fields in `DisclosedClaim::build` of
-- crates/aion-trust-claims/src/disclosure.rs.
use aion_trust.Prelude.{
  ℕ, suc, ◌+◌, ◌≡◌, sym, ap, ◌∙◌, inl, inr, Option, some, List, [], ◌∷◌, ◌++◌, map, append_assoc,
  arith, Bool-cases, length, get_elem?, length-append, get_elem?-map-some, get_elem?-middle,
  some-injective, Text, bytes_eq, bytes_eq→eq, ok_or, map_err, >>=-eq-ok, ok-injective, ok_or-eq-ok,
  none≢some, err≢ok, ok,
}
use aion_trust.Crypto.{Crypto, CryptoLaws}
use aion_trust.Json.{Json}
use aion_trust.Encoding.Hex.{decode_array}
use aion_trust.Claims.Reject.{malformed}
use aion_trust.Claims.Bodies.{ClaimBody, category, field_keys_for_category}
use aion_trust.Claims.Fields.{BodyLeaf, body_leaves}
use aion_trust.Claims.Fields.Leaves.{body_leaves-keys}
use aion_trust.Claims.Reliance.{reliance_leaves}
use aion_trust.Claims.Claim.{Claim}
use aion_trust.Claims.Disclosure.{
  FieldSelector, all, only, RevealedField, DisclosedClaim, position_from, range_from, positions,
  selected_indices, reveal, reveal_all, disclose_reliance, build, disclose,
}
use aion_trust.Claims.DisclosureVerifier.HonestFields.{keys_of, reveal-IsRevealOf}

-- The keys that a selector names, of a body.
abbrev pub selected_keys : FieldSelector → ClaimBody → Option (List Text)
selected_keys all body = field_keys_for_category (category body)
selected_keys (only keys) body = some keys

position_from-there :
    (i : ℕ) (key : Text) (known : List Text) {n : ℕ}
    → position_from i key known ≡ some n
    → (k : ℕ) × (n ≡ i + k) × (get_elem? known k ≡ some key)
unfolding position_from
position_from-there i key [] e = absurd (none≢some e)
position_from-there i key (k ∷ known) {n} e = elim (Bool-cases (bytes_eq k key)) [
  | inl same_key ↦
      let here : some i ≡ some n = rw same_key at e in
      (0, omega (arith, some-injective here), ap some (bytes_eq→eq k key same_key))
  | inr other_key ↦
      let later : position_from (suc i) key known ≡ some n = rw other_key at e in
      let (m, same, there) = position_from-there (suc i) key known later in
      (suc m, omega (arith, same), there)
]

module _ (c : Crypto) (laws : CryptoLaws c) (j : Json) where
  abbrev pub field_keys : List (RevealedField j) → List Text
  field_keys = map (λ (f : RevealedField j). f.key)

  -- A revealed field has its leaf's key.
  reveal-key :
      (leaves : List (BodyLeaf j)) (at : ℕ) {f : RevealedField j} {key : Text}
      → reveal c j leaves at ≡ ok f
      → get_elem? (keys_of c laws j leaves) at ≡ some key
      → f.key ≡ key
  reveal-key leaves at e there =
      let r = reveal-IsRevealOf c laws j leaves at e in
      r.key_same
      ∙ some-injective
          (sym (get_elem?-map-some (λ (l : BodyLeaf j). l.key) leaves at r.there) ∙ there)

  reveal_all-positions :
      (leaves : List (BodyLeaf j)) (keys : List Text) {indices : List ℕ}
      {fields : List (RevealedField j)}
      → positions (keys_of c laws j leaves) keys ≡ ok indices
      → reveal_all c j leaves indices ≡ ok fields
      → field_keys fields ≡ keys
  unfolding positions reveal_all
  reveal_all-positions leaves [] e1 e2 =
      let shown = ap (λ is. reveal_all c j leaves is) (ok-injective e1) ∙ e2 in
      ap field_keys (sym (ok-injective shown))
  reveal_all-positions leaves (key ∷ keys) e1 e2 =
      let known = keys_of c laws j leaves in
      let (at, p1, r1) = >>=-eq-ok (ok_or (position_from 0 key known) malformed) _ e1 in
      let (indices, p2, r2) = >>=-eq-ok (positions known keys) _ r1 in
      let shown = ap (λ is. reveal_all c j leaves is) (ok-injective r2) ∙ e2 in
      let (f, p3, r3) = >>=-eq-ok (reveal c j leaves at) _ shown in
      let (fields, p4, r4) = >>=-eq-ok (reveal_all c j leaves indices) _ r3 in
      let (k, same, there) =
        position_from-there 0 key known (ok_or-eq-ok (position_from 0 key known) malformed p1) in
      let here : at ≡ k = omega (arith, same) in
      ap field_keys (sym (ok-injective r4))
      ∙ ap (λ x. x ∷ field_keys fields)
          (reveal-key leaves at p3 (ap (get_elem? known) here ∙ there))
      ∙ ap (λ ks. key ∷ ks) (reveal_all-positions leaves keys p2 p4)

  reveal_all-range_from :
      (done leaves : List (BodyLeaf j)) {fields : List (RevealedField j)}
      → reveal_all c j (done ++ leaves) (range_from (length done) (length leaves)) ≡ ok fields
      → field_keys fields ≡ keys_of c laws j leaves
  unfolding range_from reveal_all
  reveal_all-range_from done [] e = ap field_keys (sym (ok-injective e))
  reveal_all-range_from done (l ∷ leaves) e =
      let (f, p1, r1) = >>=-eq-ok (reveal c j (done ++ (l ∷ leaves)) (length done)) _ e in
      let (fields, p2, r2) =
        >>=-eq-ok
          (reveal_all c j (done ++ (l ∷ leaves)) (range_from (suc (length done)) (length leaves))) _
          r1 in
      let longer : length (done ++ l ∷ []) ≡ suc (length done) =
        omega (arith, length-append done (l ∷ [])) in
      let moved =
        ap (λ n. reveal_all c j ((done ++ l ∷ []) ++ leaves) (range_from n (length leaves))) longer
        ∙ ap (λ ls. reveal_all c j ls (range_from (suc (length done)) (length leaves)))
            (append_assoc done (l ∷ []) leaves)
        ∙ p2 in
      ap field_keys (sym (ok-injective r2))
      ∙ ap (λ x. x ∷ field_keys fields)
          (reveal-key (done ++ (l ∷ leaves)) (length done) p1 (
            get_elem?-map-some (λ (x : BodyLeaf j). x.key) (done ++ (l ∷ leaves)) (length done)
              (get_elem?-middle done l leaves)))
      ∙ ap (λ ks. l.key ∷ ks) (reveal_all-range_from (done ++ l ∷ []) leaves moved)

  selected_indices-keys :
      (leaves : List (BodyLeaf j)) (body : ClaimBody) (selector : FieldSelector) {indices : List ℕ}
      {fields : List (RevealedField j)}
      → field_keys_for_category (category body) ≡ some (keys_of c laws j leaves)
      → selected_indices j leaves selector ≡ ok indices
      → reveal_all c j leaves indices ≡ ok fields
      → selected_keys selector body ≡ some (field_keys fields)
  unfolding selected_indices
  selected_indices-keys leaves body all known e1 e2 =
      known
      ∙ ap some (
          sym (
            reveal_all-range_from [] leaves
              (ap (λ is. reveal_all c j leaves is) (ok-injective e1) ∙ e2)))
  selected_indices-keys leaves body (only []) known e1 e2 = absurd (err≢ok e1)
  selected_indices-keys leaves body (only (k ∷ ks)) known e1 e2 =
      ap some (sym (reveal_all-positions leaves (k ∷ ks) e1 e2))

  -- A disclosure reveals the fields that the selector names and no other, in the selector's order: for
  -- `all` every field of the body in its canonical order.
  pub disclose-selected_keys :
      (claim : Claim) (selector : FieldSelector) {d : DisclosedClaim j}
      → disclose c j claim selector ≡ ok d
      → selected_keys selector claim.body ≡ some (field_keys d.fields)
  unfolding disclose build
  disclose-selected_keys claim selector e =
      let (ms, e1, r1) = >>=-eq-ok (map_err (decode_array 32 claim.master_salt) malformed) _ e in
      let (leaves, e2, r2) = >>=-eq-ok (body_leaves j c ms claim.body) _ r1 in
      let (reliance, e3, r3) = >>=-eq-ok (reliance_leaves c ms claim.reliance) _ r2 in
      let (indices, e4, r4) = >>=-eq-ok (selected_indices j leaves selector) _ r3 in
      let (fields, e5, r5) = >>=-eq-ok (reveal_all c j leaves indices) _ r4 in
      let (rs, e6, r6) = >>=-eq-ok (disclose_reliance c j reliance) _ r5 in
      selected_indices-keys leaves claim.body selector (body_leaves-keys c laws j ms claim.body e2)
        e4 e5
      ∙ ap some (ap field_keys (ap (λ (d : DisclosedClaim j). d.fields) (ok-injective r6)))
