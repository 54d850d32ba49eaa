-- ===== src/Claims/DisclosureVerifier/Total.antt =====
-- About when `Claim::disclose` of crates/aion-trust-claims/src/claim.rs succeeds.
use aion_trust.Prelude.{
  ℕ, zero, suc, ◌+◌, ◌^◌, ◌≤◌, ◌<◌, ◌≡◌, refl, sym, ap, subst, ◌∙◌, inl, inr, true, false≢true,
  some, List, [], ◌∷◌, arith, ltb, Bool-cases, length, get_elem?, All, length-map,
  get_elem?-map-some, some-injective, get_elem?-some, Bytes, Text, bytes_eq, contains, ok_or,
  map_err, >>=-total, ok,
}
use aion_trust.Crypto.{Crypto, CryptoLaws}
use aion_trust.Json.{Json}
use aion_trust.Encoding.Hex.{decode_array}
use aion_trust.Merkle.{audit_path}
use aion_trust.Merkle.Complete.{root_from_path-audit_path}
use aion_trust.Claims.Reject.{malformed}
use aion_trust.Claims.Bodies.{category, field_keys_for_category}
use aion_trust.Claims.Fields.{BodyLeaf, try_u32, body_leaves}
use aion_trust.Claims.Fields.Leaves.{body_leaves-keys}
use aion_trust.Claims.Reliance.{ReliesLeaf, reliance_leaves}
use aion_trust.Claims.Claim.{Claim, VerifiedClaim}
use aion_trust.Claims.Claim as Native
use aion_trust.Claims.Disclosure.{
  FieldSelector, all, only, RevealedField, RevealedReliance, DisclosedClaim, position_from,
  range_from, positions, selected_indices, reveal, reveal_all, disclose_leaves, disclose_reliance,
  build, disclose,
}
use aion_trust.Claims.DisclosureVerifier.Genuine.{
  verify-IsGenuine, body_commitment-parts, reliance_commitment-parts,
}
use aion_trust.Claims.DisclosureVerifier.HonestFields.{hashes_of, keys_of}
use aion_trust.Claims.DisclosureVerifier.HonestReliance.{AreLast, AreLast-hashes}
use aion_trust.Claims.DisclosureVerifier.RelianceLeaves.{
  AreLeavesFrom, reliance_leaves-AreLeavesFrom, leaf_hashes,
}

-- A selector that a body of these keys can answer: for `only`, some keys, all of them known.
abbrev pub IsAnswerable : List Text → FieldSelector → Type 0
IsAnswerable known all = Unit
IsAnswerable known (only keys) = (1 ≤ length keys) × All (λ key. contains known key ≡ true) keys

position_from-found :
    (i : ℕ) (key : Text) (known : List Text)
    → contains known key ≡ true
    → (n : ℕ) × (position_from i key known ≡ some n) × (n < i + length known)
unfolding position_from contains
position_from-found i key [] h = absurd (false≢true h)
position_from-found i key (k ∷ known) h = elim (Bool-cases (bytes_eq k key)) [
  | inl same_key ↦ (i, rw same_key refl, omega arith)
  | inr other_key ↦
      let (n, found, lt) = position_from-found (suc i) key known (rw other_key at h) in
      (n, rw other_key found, omega (arith, lt))
]

positions-found :
    (known keys : List Text)
    → All (λ key. contains known key ≡ true) keys
    → (indices : List ℕ) × (positions known keys ≡ ok indices) × All (λ i. i < length known) indices
unfolding positions
positions-found known [] h = ([], refl, tt)
positions-found known (key ∷ keys) (h, hs) =
    let (n, found, lt) = position_from-found 0 key known h in
    let (indices, finds, bounds) = positions-found known keys hs in
    (n ∷ indices, rw (found, finds) refl, (omega (arith, lt), bounds))

range_from-bounds : (i n m : ℕ) → i + n ≤ m → All (λ k. k < m) (range_from i n)
unfolding range_from
range_from-bounds i zero m h = tt
range_from-bounds i (suc n) m h =
    (omega (arith, h), range_from-bounds (suc i) n m (omega (arith, h)))

module _ (c : Crypto) (laws : CryptoLaws c) (j : Json) where
  selected_indices-found :
      (leaves : List (BodyLeaf j)) (selector : FieldSelector)
      → IsAnswerable (keys_of c laws j leaves) selector
      → (indices : List ℕ) × (selected_indices j leaves selector ≡ ok indices)
        × All (λ i. i < length leaves) indices
  unfolding selected_indices
  selected_indices-found leaves all h =
      (_, refl, range_from-bounds 0 (length leaves) (length leaves) (omega arith))
  selected_indices-found leaves (only []) (some_key, h) = absurd (omega (arith, some_key))
  selected_indices-found leaves (only (k ∷ ks)) (some_key, h) =
      let (indices, found, bounds) = positions-found (keys_of c laws j leaves) (k ∷ ks) h in
      (
        indices,
        found,
        subst (λ n. All (λ i. i < n) indices) (length-map (λ (l : BodyLeaf j). l.key) leaves)
            bounds,
      )

  reveal-found :
      (leaves : List (BodyLeaf j)) (at : ℕ)
      → at < length leaves
      → length leaves < 2 ^ 32
      → (f : RevealedField j) × (reveal c j leaves at ≡ ok f)
  unfolding reveal try_u32
  reveal-found leaves at lt small =
      let (leaf, there) = get_elem?-some leaves at lt in
      let (path, audited, same) =
        root_from_path-audit_path c (hashes_of c laws j leaves) at leaf.hash
          (get_elem?-map-some (λ (l : BodyLeaf j). l.hash) leaves at there) in
      let in_range : ltb at (2 ^ 32) ≡ true = ground (arith, lt, small) in
      >>=-total (ok_or (get_elem? leaves at) malformed) _ (ap (λ x. ok_or x malformed) there) (
        >>=-total (map_err (audit_path c (hashes_of c laws j leaves) at) malformed) _
          (ap (λ r. map_err r malformed) audited)
          (>>=-total (try_u32 at) _ {x = at} (rw in_range refl) (_, refl)))

  reveal_all-found :
      (leaves : List (BodyLeaf j)) (indices : List ℕ)
      → All (λ i. i < length leaves) indices
      → length leaves < 2 ^ 32
      → (fields : List (RevealedField j)) × (reveal_all c j leaves indices ≡ ok fields)
  unfolding reveal_all
  reveal_all-found leaves [] h small = ([], refl)
  reveal_all-found leaves (at ∷ indices) (lt, h) small =
      let (f, revealed) = reveal-found leaves at lt small in
      let (fields, shown) = reveal_all-found leaves indices h small in
      (f ∷ fields, rw (revealed, shown) refl)

  disclose_leaves-found :
      (hashes : List Bytes) (n : ℕ) (leaves : List ReliesLeaf)
      → AreLeavesFrom c laws j n leaves
      → AreLast c laws j hashes n leaves
      → (out : List RevealedReliance) × (disclose_leaves c j hashes leaves ≡ ok out)
  unfolding disclose_leaves
  disclose_leaves-found hashes n [] h last = ([], refl)
  disclose_leaves-found hashes n (l ∷ leaves) (same, il, h) (there, last) =
      let at_index : get_elem? hashes l.index ≡ some l.hash = rw same there in
      let (path, audited, climbs) = root_from_path-audit_path c hashes l.index l.hash at_index in
      let (out, discloses) = disclose_leaves-found hashes (suc n) leaves h last in
      >>=-total (map_err (audit_path c hashes l.index) malformed) _
        (ap (λ r. map_err r malformed) audited)
        (>>=-total (disclose_leaves c j hashes leaves) _ discloses (_, refl))

  -- A claim that verifies can be disclosed: with all of its fields, or with any of them but none.
  pub disclose-total :
      (claim : Claim) (issuer_vk : c.VerifyingKey) (selector : FieldSelector) (known : List Text)
      {v : VerifiedClaim c j}
      → Native.verify c j claim issuer_vk ≡ ok v
      → field_keys_for_category (category claim.body) ≡ some known
      → IsAnswerable known selector
      → (d : DisclosedClaim j) × (disclose c j claim selector ≡ ok d)
  unfolding disclose build disclose_reliance
  disclose-total claim issuer_vk selector known verified knows answerable =
      let g = verify-IsGenuine c laws j claim issuer_vk verified in
      let ms = g.master_salt in
      let (leaves, leaves_are, committed, counted, small) =
        body_commitment-parts c laws j ms claim.body g.body_commits in
      let (rel_leaves, rel_are, rel_commits) =
        reliance_commitment-parts c laws j ms claim.reliance g.reliance_commits in
      let same_keys =
        some-injective (sym knows ∙ body_leaves-keys c laws j ms claim.body leaves_are) in
      let (indices, selected, bounds) =
        selected_indices-found leaves selector
          (subst (λ ks. IsAnswerable ks selector) same_keys answerable) in
      let (fields, shown) = reveal_all-found leaves indices bounds small in
      let (out, discloses) =
        disclose_leaves-found (leaf_hashes c laws j rel_leaves) 0 rel_leaves
          (reliance_leaves-AreLeavesFrom c laws j ms claim.reliance rel_are)
          (AreLast-hashes c laws j [] rel_leaves) in
      >>=-total (map_err (decode_array 32 claim.master_salt) malformed) _
        (ap (λ r. map_err r malformed) g.salt_decodes)
        (>>=-total (body_leaves j c ms claim.body) _ leaves_are (
          >>=-total (reliance_leaves c ms claim.reliance) _ rel_are (
            >>=-total (selected_indices j leaves selector) _ selected (
              >>=-total (reveal_all c j leaves indices) _ shown
                (>>=-total (disclose_reliance c j rel_leaves) _ discloses (_, refl))))))
