-- ===== src/Merkle/Complete.antt =====
-- About `audit_path` and `root_from_path` of crates/aion-trust-core/src/merkle.rs.
use aion_trust.Prelude.{
  ℕ, zero, suc, ◌-◌, ◌≤◌, ◌<◌, ◌≡◌, sym, ap, ◌∙◌, some, List, [], ◌∷◌, ◌++◌, reverse,
  reverse-append, arith, length, get_elem?, get_elem?-take, get_elem?-drop, get_elem?-length, Bytes,
  ◌>>=◌, ok,
}
use native.Mathlib.Nat.{le_refl}
use native.Mathlib.Decide.{dec_lt}
use aion_trust.Crypto.{Crypto}
use aion_trust.Merkle.{
  split_point, node_hash, mth, merkle_root, path, audit_path, climb, root_from_path,
}
use aion_trust.Merkle.Split.{split_point_bounds}
use aion_trust.Merkle.Tree.{
  left_half, right_half, length-left_half, length-right_half, mth_lem, path_left, path_right,
}

pub reverse_snoc {ℓ} : {A : Type ℓ} (xs : List A) (x : A) → reverse (xs ++ x ∷ []) ≡ x ∷ reverse xs
reverse_snoc xs x = reverse-append xs (x ∷ [])

module _ (c : Crypto) where
  -- One step of the climb, below an inner node.
  pub climb_left :
      (leaf : Bytes) (i n : ℕ) (outer : Bytes) (inner : List Bytes)
      → 2 ≤ n
      → i < split_point n
      → climb c leaf i n (outer ∷ inner)
        ≡ (climb c leaf i (split_point n) inner >>= λ l. ok (node_hash c l outer))
  unfolding climb
  climb_left leaf i n outer inner h lt = ground (arith, split_point_bounds n h)

  pub climb_right :
      (leaf : Bytes) (i n : ℕ) (outer : Bytes) (inner : List Bytes)
      → 2 ≤ n
      → split_point n ≤ i
      → i < n
      → climb c leaf i n (outer ∷ inner) ≡ (
          climb c leaf (i - split_point n) (n - split_point n) inner >>= λ r.
          ok (node_hash c outer r))
  unfolding climb
  climb_right leaf i n outer inner h le lt = ground (arith, split_point_bounds n h)

  climb-path :
      (f : ℕ) (leaves : List Bytes) (i : ℕ) (leaf : Bytes)
      → length leaves ≤ f
      → get_elem? leaves i ≡ some leaf
      → climb c leaf i (length leaves) (reverse (path c leaves i)) ≡ ok (mth c leaves)
  climb-path f [] i leaf fits e = cc
  climb-path f (x ∷ []) zero leaf fits e = unfold climb path mth in cc
  climb-path f (x ∷ []) (suc i) leaf fits e = cc
  climb-path zero (x ∷ y ∷ rest) i leaf fits e = absurd (omega arith)
  climb-path (suc f) (x ∷ y ∷ rest) i leaf fits e =
      let leaves = x ∷ y ∷ rest in
      let k = split_point (length leaves) in
      let b = split_point_bounds (length leaves) (omega arith) in
      let l = length-left_half leaves (omega arith) in
      let r = length-right_half leaves (omega arith) in
      elim (dec_lt i k) [
        | yes lt ↦
            let ih =
              climb-path f (left_half leaves) i leaf (omega arith)
                (get_elem?-take k i leaves lt ∙ e) in
            rw (path_left c leaves i (omega arith) lt, reverse_snoc)
              (rw (climb_left leaf i (length leaves) _ _ (omega arith) lt, rw l at ih)
                (ap ok (sym (mth_lem c leaves (omega arith)))))
        | no ge ↦
            let below = get_elem?-length leaves i e in
            let ih =
              climb-path f (right_half leaves) (i - k) leaf (omega arith)
                (get_elem?-drop k i leaves (omega arith) ∙ e) in
            rw (path_right c leaves i (omega arith) (omega arith), reverse_snoc)
              (rw
                (
                  climb_right leaf i (length leaves) _ _ (omega arith) (omega arith) below,
                  rw r at ih,
                )
                (ap ok (sym (mth_lem c leaves (omega arith)))))
      ]

  -- For every leaf of a tree there is an audit path, and recomputing from the leaf, its index, the
  -- number of leaves and this path gives the tree's root.
  pub root_from_path-audit_path :
      (leaves : List Bytes) (i : ℕ) (leaf : Bytes)
      → get_elem? leaves i ≡ some leaf
      → (p : List Bytes) × (audit_path c leaves i ≡ ok p)
        × (root_from_path c leaf i (length leaves) p ≡ merkle_root c leaves)
  unfolding audit_path root_from_path merkle_root
  root_from_path-audit_path [] i leaf e = cc
  root_from_path-audit_path (x ∷ rest) i leaf e =
      let leaves = x ∷ rest in
      (
        path c leaves i,
        ground (arith, get_elem?-length leaves i e),
        climb-path (length leaves) leaves i leaf (le_refl _) e,
      )
