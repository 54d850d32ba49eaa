-- ===== src/Claims/DisclosureVerifier/HonestReliance.antt =====
-- About the reliance leaves that `disclose_reliance` of crates/aion-trust-claims/src/disclosure.rs
-- discloses, as `verify_reliance` checks them.
use aion_trust.Prelude.{
  ℕ, suc, ◌≤◌, ◌<◌, ◌≡◌, refl, sym, ap, subst, ◌∙◌, ◌⊎◌, inl, inr, Bool, true, false, false≢true,
  some, List, [], ◌∷◌, ◌++◌, map, append_assoc, arith, leb, ◌==◌, ==_iff, Bool-cases, length,
  get_elem?, set, get_or, replicate, length-append, get_elem?-length, length-map,
  get_elem?-map-some, get_elem?-middle, get_or-set_other, get_or-replicate, Bytes, bytes_eq_refl,
  Result, map_err, >>=-eq-ok, ok-injective, map_err-eq-ok, ok,
}
use aion_trust.Crypto.{Crypto, CryptoLaws, IsArray}
use aion_trust.Json.{Json}
use aion_trust.Encoding.Hex.{to_hex}
use aion_trust.Encoding.Hex.RoundTrip.{decode_array-to_hex}
use aion_trust.Identity.{ClaimId}
use aion_trust.Merkle.{merkle_root, audit_path, root_from_path}
use aion_trust.Merkle.Complete.{root_from_path-audit_path}
use aion_trust.Merkle.Arrays.{AreArrays, merkle_root-IsArray, audit_path-AreArrays}
use aion_trust.Claims.Reject.{ClaimReject, malformed}
use aion_trust.Claims.Reliance.{ReliesLeaf, empty_reliance_root, reliance_root_of}
use aion_trust.Claims.Disclosure.{
  RevealedReliance, DisclosedClaim, encode_path, disclose_leaves, disclose_reliance,
}
use aion_trust.Claims.DisclosureVerifier.{prove_reliance, prove_all_reliance, verify_reliance}
use aion_trust.Claims.DisclosureVerifier.Reliance.{targets}
use aion_trust.Claims.DisclosureVerifier.HonestFields.{decode_path-encode_path}
use aion_trust.Claims.DisclosureVerifier.RelianceLeaves.{leaf_hashes, IsReliesLeaf, AreLeavesFrom}

module _ (c : Crypto) (laws : CryptoLaws c) (j : Json) where
  -- The leaves still to disclose are the last ones of the tree.
  abbrev pub AreLast : List Bytes → ℕ → List ReliesLeaf → Type 0
  AreLast hashes n [] = Unit
  AreLast hashes n (l ∷ rest) = (get_elem? hashes n ≡ some l.hash) × AreLast hashes (suc n) rest

  pub AreLast-hashes :
      (done leaves : List ReliesLeaf)
      → AreLast (leaf_hashes c laws j (done ++ leaves)) (length done) leaves
  AreLast-hashes done [] = tt
  AreLast-hashes done (l ∷ leaves) =
      let moved = append_assoc done (l ∷ []) leaves in
      (
        get_elem?-map-some (λ (x : ReliesLeaf). x.hash) (done ++ (l ∷ leaves)) (length done)
            (get_elem?-middle done l leaves),
        subst (λ n. AreLast (leaf_hashes c laws j (done ++ (l ∷ leaves))) n leaves)
            (omega (arith, length-append done (l ∷ [])))
            (subst (λ ls. AreLast (leaf_hashes c laws j ls) (length (done ++ l ∷ [])) leaves) moved
              (AreLast-hashes (done ++ l ∷ []) leaves)),
      )

  hashes_AreArrays :
      (n : ℕ) (leaves : List ReliesLeaf)
      → AreLeavesFrom c laws j n leaves
      → AreArrays c laws (leaf_hashes c laws j leaves)
  hashes_AreArrays n [] h = tt
  hashes_AreArrays n (l ∷ leaves) (e, il, h) = (il.hash_array, hashes_AreArrays (suc n) leaves h)

  module _ (hashes : List Bytes) (root : Bytes) (arrays : AreArrays c laws hashes)
      (committed : merkle_root c hashes ≡ ok root) where
    prove_disclosed :
        (l : ReliesLeaf) (p : List Bytes)
        → IsReliesLeaf c laws j l
        → get_elem? hashes l.index ≡ some l.hash
        → audit_path c hashes l.index ≡ ok p
        → prove_reliance c j (length hashes) root (record {
          index = l.index;
          from_claim_id = l.from_claim_id;
          salt = to_hex l.salt;
          kind_commit = to_hex l.kind_commit;
          audit_path = encode_path p;
        })
          ≡ ok tt
    unfolding prove_reliance
    prove_disclosed l p il there audited =
        let (q, e, same) = root_from_path-audit_path c hashes l.index l.hash there in
        let climbs =
          ap (root_from_path c l.hash l.index (length hashes)) (ok-injective (sym audited ∙ e))
          ∙ same
          ∙ committed in
        rw
          (
            decode_array-to_hex 32 il.salt_array,
            decode_array-to_hex 32 il.kind_array,
            decode_path-encode_path p (audit_path-AreArrays c laws hashes l.index arrays audited),
            ← il.hashed,
            climbs,
            bytes_eq_refl root,
          )
          refl

    -- Every disclosed leaf is proven, and no index was seen before.
    pub prove_all-disclose_leaves :
        (n : ℕ) (leaves : List ReliesLeaf) (flags : List Bool) {out : List RevealedReliance}
        → AreLeavesFrom c laws j n leaves
        → AreLast hashes n leaves
        → ((k : ℕ) → n ≤ k → k < length hashes → get_or flags k true ≡ false)
        → disclose_leaves c j hashes leaves ≡ ok out
        → prove_all_reliance c j (length hashes) root flags out ≡ ok (targets out)
    unfolding disclose_leaves prove_all_reliance
    prove_all-disclose_leaves n [] flags h last unset e = rw (← ok-injective e) refl
    prove_all-disclose_leaves n (l ∷ leaves) flags (same, il, h) (there, last) unset e =
        let (p, e1, r1) = >>=-eq-ok (map_err (audit_path c hashes l.index) malformed) _ e in
        let (out, e2, r2) = >>=-eq-ok (disclose_leaves c j hashes leaves) _ r1 in
        let audited = map_err-eq-ok (audit_path c hashes l.index) malformed e1 in
        let lt = get_elem?-length hashes n there in
        let within : leb (length hashes) l.index ≡ false = ground (arith, same, lt) in
        let unseen : get_or flags l.index true ≡ false = rw same (unset n (omega arith) lt) in
        let rest =
          prove_all-disclose_leaves (suc n) leaves (set flags l.index true) h last
            (λ k lo hi.
              get_or-set_other flags l.index k true true (omega (arith, same, lo))
              ∙ unset k (omega (arith, lo)) hi)
            e2 in
        rw (← ok-injective r2, within, unseen, prove_disclosed l p il (rw same there) audited, rest)
          refl

  length-disclose_leaves :
      (hashes : List Bytes) (leaves : List ReliesLeaf) {out : List RevealedReliance}
      → disclose_leaves c j hashes leaves ≡ ok out
      → length out ≡ length leaves
  unfolding disclose_leaves
  length-disclose_leaves hashes [] e = ap length (sym (ok-injective e))
  length-disclose_leaves hashes (l ∷ leaves) e =
      let (p, e1, r1) = >>=-eq-ok (map_err (audit_path c hashes l.index) malformed) _ e in
      let (out, e2, r2) = >>=-eq-ok (disclose_leaves c j hashes leaves) _ r1 in
      ap length (sym (ok-injective r2)) ∙ ap suc (length-disclose_leaves hashes leaves e2)

  -- The root of a commitment: the sentinel for no leaf, else the tree's.
  pub reliance_root_of-parts :
      (leaves : List ReliesLeaf) (n : ℕ) {root : Bytes} {count : ℕ}
      → AreLeavesFrom c laws j 0 leaves
      → n ≡ length leaves
      → reliance_root_of c leaves n ≡ ok (root, count)
      → IsArray 32 root
        × (count ≡ length leaves)
        × ((leaves ≡ []) ⊎ (merkle_root c (leaf_hashes c laws j leaves) ≡ ok root))
  unfolding reliance_root_of empty_reliance_root
  reliance_root_of-parts [] n h same e = (
    subst (IsArray 32) (ap (λ p. p.0) (ok-injective e)) (laws.hash-IsArray _),
    sym (ap (λ p. p.1) (ok-injective e)),
    inl refl,
  )
  reliance_root_of-parts (l ∷ leaves) n h same e =
      let (root, e1, r1) =
        >>=-eq-ok (map_err (merkle_root c (leaf_hashes c laws j (l ∷ leaves))) malformed)
          (λ root. ok (root, n)) e in
      let committed =
        map_err-eq-ok (merkle_root c (leaf_hashes c laws j (l ∷ leaves))) malformed e1 in
      let root_same = ap (λ p. p.0) (ok-injective r1) in
      (
        subst (IsArray 32) root_same (
            merkle_root-IsArray c laws (leaf_hashes c laws j (l ∷ leaves))
              (hashes_AreArrays 0 (l ∷ leaves) h) committed),
        sym (ap (λ p. p.1) (ok-injective r1)) ∙ same,
        inr (committed ∙ ap ok root_same),
      )

  no_targets :
      (rs : List RevealedReliance)
      → length rs ≡ 0
      → ◌≡◌ {A = Result ClaimReject (List ClaimId)} (ok []) (ok (targets rs))
  no_targets [] e = refl
  no_targets (r ∷ rs) e = absurd (omega (arith, e))

  pub verify_reliance-disclose_reliance :
      (d : DisclosedClaim j) (leaves : List ReliesLeaf) {root : Bytes} {count : ℕ}
      → AreLeavesFrom c laws j 0 leaves
      → reliance_root_of c leaves (length leaves) ≡ ok (root, count)
      → disclose_reliance c j leaves ≡ ok d.reliance
      → d.reliance_root ≡ to_hex root
      → d.reliance_count ≡ count
      → verify_reliance c j d ≡ ok (targets d.reliance)
  unfolding verify_reliance disclose_reliance
  verify_reliance-disclose_reliance d leaves {root} {count} h commits discloses root_hex
        count_same =
      let (array, counted, kind) = reliance_root_of-parts leaves (length leaves) h refl commits in
      let sized = length-disclose_leaves (leaf_hashes c laws j leaves) leaves discloses in
      let all_shown =
        (==_iff (length d.reliance) d.reliance_count).1 (sized ∙ sym counted ∙ sym count_same) in
      elim (Bool-cases (d.reliance_count == 0)) [
        | inl none_at_all ↦
            rw (all_shown, none_at_all)
              (no_targets d.reliance
                (sized ∙ sym counted ∙ sym count_same ∙ (==_iff d.reliance_count 0).0 none_at_all))
        | inr some_leaf ↦ elim kind [
          | inl no_leaf ↦ absurd (
              false≢true (
                sym some_leaf
                ∙ (==_iff d.reliance_count 0).1 (count_same ∙ counted ∙ ap length no_leaf)))
          | inr committed ↦
              let hashes = leaf_hashes c laws j leaves in
              let size = length-map (λ (l : ReliesLeaf). l.hash) leaves in
              let n_same : d.reliance_count ≡ length hashes = count_same ∙ counted ∙ sym size in
              rw (all_shown, some_leaf, root_hex, decode_array-to_hex 32 array, n_same)
                (prove_all-disclose_leaves hashes root (hashes_AreArrays 0 leaves h) committed 0
                  leaves (replicate (length hashes) false) h (AreLast-hashes [] leaves)
                  (λ k lo hi. get_or-replicate (length hashes) k false true hi) discloses)
        ]
      ]

  -- The disclosed targets are the claim's.
  pub targets-disclose_leaves :
      (hashes : List Bytes) (leaves : List ReliesLeaf) {out : List RevealedReliance}
      → disclose_leaves c j hashes leaves ≡ ok out
      → targets out ≡ map (λ (l : ReliesLeaf). l.from_claim_id) leaves
  unfolding disclose_leaves
  targets-disclose_leaves hashes [] e = ap targets (sym (ok-injective e))
  targets-disclose_leaves hashes (l ∷ leaves) e =
      let (p, e1, r1) = >>=-eq-ok (map_err (audit_path c hashes l.index) malformed) _ e in
      let (out, e2, r2) = >>=-eq-ok (disclose_leaves c j hashes leaves) _ r1 in
      ap targets (sym (ok-injective r2))
      ∙ ap (λ ids. l.from_claim_id ∷ ids) (targets-disclose_leaves hashes leaves e2)
