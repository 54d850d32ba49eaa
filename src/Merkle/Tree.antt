-- ===== src/Merkle/Tree.antt =====
-- About the recursion of `mth` and `path` of crates/aion-trust-core/src/merkle.rs, and its fuel.
use aion_trust.Prelude.{
  ℕ, zero, suc, ◌-◌, ◌≤◌, ◌<◌, ◌≡◌, refl, ap, ap₂, List, [], ◌∷◌, ◌++◌, arith, lt→ltb, le→ltb-false,
  length, take, drop, length-take, length-drop, Bytes,
}
use aion_trust.Crypto.{Crypto}
use aion_trust.Merkle.{split_point, node_hash, mth_fuel, mth, path_fuel, path}
use aion_trust.Merkle.Split.{split_point_bounds}

-- The two halves of a list of at least two leaves.
abbrev pub left_half : List Bytes → List Bytes
left_half leaves = take (split_point (length leaves)) leaves

abbrev pub right_half : List Bytes → List Bytes
right_half leaves = drop (split_point (length leaves)) leaves

pub length-left_half :
    (leaves : List Bytes)
    → 2 ≤ length leaves
    → length (left_half leaves) ≡ split_point (length leaves)
length-left_half leaves h =
    let n = length leaves in
    omega (arith, length-take (split_point n) leaves, split_point_bounds n h)

pub length-right_half :
    (leaves : List Bytes)
    → 2 ≤ length leaves
    → length (right_half leaves) ≡ length leaves - split_point (length leaves)
length-right_half leaves h = length-drop (split_point (length leaves)) leaves

module _ (c : Crypto) where
  mth_enough :
      (f g : ℕ) (leaves : List Bytes)
      → length leaves ≤ f
      → length leaves ≤ g
      → mth_fuel c f leaves ≡ mth_fuel c g leaves
  unfolding mth_fuel
  mth_enough zero zero leaves hf hg = refl
  mth_enough zero (suc g) [] hf hg = refl
  mth_enough (suc f) zero [] hf hg = refl
  mth_enough zero (suc g) (x ∷ rest) hf hg = absurd (omega arith)
  mth_enough (suc f) zero (x ∷ rest) hf hg = absurd (omega arith)
  mth_enough (suc f) (suc g) [] hf hg = refl
  mth_enough (suc f) (suc g) (x ∷ []) hf hg = refl
  mth_enough (suc f) (suc g) (x ∷ y ∷ rest) hf hg =
      let leaves = x ∷ y ∷ rest in
      let b = split_point_bounds (length leaves) (omega arith) in
      let l = length-left_half leaves (omega arith) in
      let r = length-right_half leaves (omega arith) in
      ap₂ (node_hash c) (mth_enough f g (left_half leaves) (omega arith) (omega arith))
        (mth_enough f g (right_half leaves) (omega arith) (omega arith))

  -- `mth` of two leaves or more is the node over the `mth` of the two parts that the split point
  -- makes of them.
  pub mth_lem :
      (leaves : List Bytes)
      → 2 ≤ length leaves
      → mth c leaves ≡ node_hash c (mth c (left_half leaves)) (mth c (right_half leaves))
  unfolding mth mth_fuel
  mth_lem [] h = absurd (omega arith)
  mth_lem (x ∷ []) h = absurd (omega arith)
  mth_lem (x ∷ y ∷ rest) h =
      let leaves = x ∷ y ∷ rest in
      let b = split_point_bounds (length leaves) h in
      let l = length-left_half leaves h in
      let r = length-right_half leaves h in
      ap₂ (node_hash c)
        (mth_enough (suc (length rest)) _ (left_half leaves) (omega arith) (omega arith))
        (mth_enough (suc (length rest)) _ (right_half leaves) (omega arith) (omega arith))

  path_enough :
      (f g : ℕ) (leaves : List Bytes) (index : ℕ)
      → length leaves ≤ f
      → length leaves ≤ g
      → path_fuel c f leaves index ≡ path_fuel c g leaves index
  unfolding path_fuel
  path_enough zero zero leaves i hf hg = refl
  path_enough zero (suc g) [] i hf hg = refl
  path_enough (suc f) zero [] i hf hg = refl
  path_enough zero (suc g) (x ∷ rest) i hf hg = absurd (omega arith)
  path_enough (suc f) zero (x ∷ rest) i hf hg = absurd (omega arith)
  path_enough (suc f) (suc g) [] i hf hg = refl
  path_enough (suc f) (suc g) (x ∷ []) i hf hg = refl
  path_enough (suc f) (suc g) (x ∷ y ∷ rest) i hf hg =
      let leaves = x ∷ y ∷ rest in
      let k = split_point (length leaves) in
      let b = split_point_bounds (length leaves) (omega arith) in
      let l = length-left_half leaves (omega arith) in
      let r = length-right_half leaves (omega arith) in
      rw (
        path_enough f g (left_half leaves) i (omega arith) (omega arith),
        path_enough f g (right_half leaves) (i - k) (omega arith) (omega arith),
      )

  -- The path of an index in the left half, and of one in the right half.
  pub path_left :
      (leaves : List Bytes) (index : ℕ)
      → 2 ≤ length leaves
      → index < split_point (length leaves)
      → path c leaves index ≡ path c (left_half leaves) index ++ mth c (right_half leaves) ∷ []
  unfolding path path_fuel
  path_left [] i h lt = absurd (omega arith)
  path_left (x ∷ []) i h lt = absurd (omega arith)
  path_left (x ∷ y ∷ rest) i h lt =
      let leaves = x ∷ y ∷ rest in
      let b = split_point_bounds (length leaves) h in
      let l = length-left_half leaves h in
      rw (lt→ltb _ _ lt) (
        ap (λ p. p ++ mth c (right_half leaves) ∷ [])
          (path_enough (suc (length rest)) _ (left_half leaves) i (omega arith) (omega arith)))

  pub path_right :
      (leaves : List Bytes) (index : ℕ)
      → 2 ≤ length leaves
      → split_point (length leaves) ≤ index
      → path c leaves index
        ≡ path c (right_half leaves) (index - split_point (length leaves))
          ++ mth c (left_half leaves) ∷ []
  unfolding path path_fuel
  path_right [] i h lt = absurd (omega arith)
  path_right (x ∷ []) i h lt = absurd (omega arith)
  path_right (x ∷ y ∷ rest) i h lt =
      let leaves = x ∷ y ∷ rest in
      let k = split_point (length leaves) in
      let b = split_point_bounds (length leaves) h in
      let r = length-right_half leaves h in
      rw (le→ltb-false i k lt) (
        ap (λ p. p ++ mth c (left_half leaves) ∷ [])
          (path_enough (suc (length rest)) _ (right_half leaves) (i - k) (omega arith)
            (omega arith)))
