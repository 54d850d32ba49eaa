-- ===== src/Claims/DisclosureVerifier/Reliance.antt =====
-- About `verify_reliance` of crates/aion-trust-claims/src/disclosure.rs.
use aion_trust.Prelude.{
  ℕ, zero, suc, ◌<◌, ◌≡◌, refl, sym, ap, ◌∙◌, ◌≢◌, inl, inr, Bool, true, false, not, ◌||◌,
  false≢true, List, [], ◌∷◌, map, arith, leb, ◌==◌, ==_iff, Bool-cases, length, set, get_or,
  replicate, All, get_or-set, Bytes, bytes_eq, bytes_eq→eq, map_err, guard, >>=-eq-ok,
  map_err-eq-ok, guard-eq-ok, ok,
}
use aion_trust.Crypto.{Crypto}
use aion_trust.Json.{Json}
use aion_trust.Encoding.Hex.{decode_array}
use aion_trust.Identity.{ClaimId}
use aion_trust.Merkle.{reliance_leaf_hash, root_from_path}
use aion_trust.Claims.Reject.{relies_tampered, malformed}
use aion_trust.Claims.Disclosure.{RevealedReliance, DisclosedClaim}
use aion_trust.Claims.DisclosureVerifier.{
  decode_path, prove_reliance, prove_all_reliance, verify_reliance,
}

-- No two of the leaves have one index.
abbrev pub IndicesDiffer : List RevealedReliance → Type 0
IndicesDiffer [] = Unit
IndicesDiffer (r ∷ rest) =
    All (λ (x : RevealedReliance). x.index ≢ r.index) rest × IndicesDiffer rest

abbrev pub targets : List RevealedReliance → List ClaimId
targets = map (λ (r : RevealedReliance). r.from_claim_id)

unset_before :
    (flags : List Bool) (i k : ℕ)
    → get_or (set flags i true) k true ≡ false
    → get_or flags k true ≡ false
unset_before [] i k h = h
unset_before (b ∷ flags) zero zero h = cc
unset_before (b ∷ flags) zero (suc k) h = h
unset_before (b ∷ flags) (suc i) zero h = h
unset_before (b ∷ flags) (suc i) (suc k) h = unset_before flags i k h

-- Leaves whose flags are unset after a flag was set have another index, and were unset before.
unset_differ :
    (flags : List Bool) (i : ℕ) (rs : List RevealedReliance)
    → All (λ (r : RevealedReliance). get_or (set flags i true) r.index true ≡ false) rs
    → All (λ (r : RevealedReliance). r.index ≢ i) rs
      × All (λ (r : RevealedReliance). get_or flags r.index true ≡ false) rs
unset_differ flags i [] h = (tt, tt)
unset_differ flags i (r ∷ rs) (h, hs) =
    let (differ, unset) = unset_differ flags i rs hs in
    (
      (
        λ same.
            false≢true
              (sym h ∙ ap (λ k. get_or (set flags i true) k true) same ∙ get_or-set flags i true),
        differ,
      ),
      (unset_before flags i r.index h, unset),
    )

module _ (c : Crypto) (j : Json) where
  -- The leaf is within the number of leaves, and recomputes the reliance root.
  pub record IsProvenReliance (count : ℕ) (root : Bytes) (r : RevealedReliance) : Type 0 where
    pub salt : Bytes
    pub kind_commit : Bytes
    pub path : List Bytes
    pub within : r.index < count
    pub salt_decodes : decode_array 32 r.salt ≡ ok salt
    pub kind_decodes : decode_array 32 r.kind_commit ≡ ok kind_commit
    pub path_decodes : decode_path r.audit_path ≡ ok path
    pub committed :
        root_from_path c
          (reliance_leaf_hash c r.index salt r.from_claim_id kind_commit)
          r.index
          count
          path
        ≡ ok root

  prove_reliance-IsProvenReliance :
      (count : ℕ) (root : Bytes) (r : RevealedReliance) {u : Unit {0}}
      → r.index < count
      → prove_reliance c j count root r ≡ ok u
      → IsProvenReliance count root r
  unfolding prove_reliance
  prove_reliance-IsProvenReliance count root r within e =
      let (salt, e1, r1) = >>=-eq-ok (map_err (decode_array 32 r.salt) malformed) _ e in
      let (kind, e2, r2) = >>=-eq-ok (map_err (decode_array 32 r.kind_commit) malformed) _ r1 in
      let (path, e3, r3) = >>=-eq-ok (decode_path r.audit_path) _ r2 in
      let climbed =
        root_from_path c (reliance_leaf_hash c r.index salt r.from_claim_id kind) r.index count
          path in
      let (got, e4, r4) = >>=-eq-ok (map_err climbed relies_tampered) _ r3 in
      record {
        salt = salt;
        kind_commit = kind;
        path = path;
        within = within;
        salt_decodes = map_err-eq-ok (decode_array 32 r.salt) malformed e1;
        kind_decodes = map_err-eq-ok (decode_array 32 r.kind_commit) malformed e2;
        path_decodes = e3;
        committed =
            map_err-eq-ok climbed relies_tampered e4
            ∙ ap ok (bytes_eq→eq got root (guard-eq-ok (bytes_eq got root) relies_tampered r4));
      }

  unset_within :
      (count : ℕ) (flags : List Bool) (i : ℕ)
      → not (leb count i || get_or flags i true) ≡ true
      → (i < count) × (get_or flags i true ≡ false)
  unset_within count flags i h = ground arith

  prove_all_reliance_lem :
      (count : ℕ) (root : Bytes) (flags : List Bool) (rs : List RevealedReliance)
      {ids : List ClaimId}
      → prove_all_reliance c j count root flags rs ≡ ok ids
      → (ids ≡ targets rs)
        × All (IsProvenReliance count root) rs
        × IndicesDiffer rs
        × All (λ (r : RevealedReliance). get_or flags r.index true ≡ false) rs
  unfolding prove_all_reliance
  prove_all_reliance_lem count root flags [] e = (cc, tt, tt, tt)
  prove_all_reliance_lem count root flags (r ∷ rs) e =
      let test = not (leb count r.index || get_or flags r.index true) in
      let (u, e1, r1) = >>=-eq-ok (guard test relies_tampered) _ e in
      let (v, e2, r2) = >>=-eq-ok (prove_reliance c j count root r) _ r1 in
      let (rest, e3, r3) =
        >>=-eq-ok (prove_all_reliance c j count root (set flags r.index true) rs) _ r2 in
      let (within, unset) =
        unset_within count flags r.index (guard-eq-ok test relies_tampered e1) in
      let (same, facts, differ, unset_rest) =
        prove_all_reliance_lem count root (set flags r.index true) rs e3 in
      let (others, unset_all) = unset_differ flags r.index rs unset_rest in
      (
        cc (same, r3),
        (prove_reliance-IsProvenReliance count root r within e2, facts),
        (others, differ),
        (unset, unset_all),
      )

  -- What `verify_reliance` establishes under a decoded reliance root.
  pub record IsExactReliance (d : DisclosedClaim j) (root : Bytes) (ids : List ClaimId)
      : Type 0 where
    pub exact : length d.reliance ≡ d.reliance_count
    pub all_targets : ids ≡ targets d.reliance
    pub differ : IndicesDiffer d.reliance
    pub proven : All (IsProvenReliance d.reliance_count root) d.reliance

  none_revealed :
      (d : DisclosedClaim j) (root : Bytes) (rs : List RevealedReliance)
      → length rs ≡ 0
      → ([] ≡ targets rs) × IndicesDiffer rs × All (IsProvenReliance d.reliance_count root) rs
  none_revealed d root [] h = (refl, tt, tt)
  none_revealed d root (r ∷ rs) h = absurd (omega (arith, h))

  pub verify_reliance-IsExactReliance :
      (d : DisclosedClaim j) (root : Bytes) {ids : List ClaimId}
      → decode_array 32 d.reliance_root ≡ ok root
      → verify_reliance c j d ≡ ok ids
      → IsExactReliance d root ids
  unfolding verify_reliance
  verify_reliance-IsExactReliance d root {ids} decodes e =
      elim (Bool-cases (length d.reliance == d.reliance_count)) [
        | inr other ↦ cc (rw other at e)
        | inl counted ↦
            let exact = (==_iff (length d.reliance) d.reliance_count).0 counted in
            elim (Bool-cases (d.reliance_count == 0)) [
              | inl none_at_all ↦
                  let (same, differ, proven) =
                    none_revealed d root d.reliance
                      (exact ∙ (==_iff d.reliance_count 0).0 none_at_all) in
                  record {
                    exact = exact;
                    all_targets = cc (same, rw (counted, none_at_all) at e);
                    differ = differ;
                    proven = proven;
                  }
              | inr some_leaf ↦
                  let (same, proven, differ, unset) =
                    prove_all_reliance_lem d.reliance_count root (replicate d.reliance_count false)
                      d.reliance (rw (counted, some_leaf, decodes) at e) in
                  record { exact = exact; all_targets = same; differ = differ; proven = proven }
            ]
      ]
