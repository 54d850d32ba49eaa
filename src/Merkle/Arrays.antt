-- ===== src/Merkle/Arrays.antt =====
-- About the sizes of what `mth` and `path` of crates/aion-trust-core/src/merkle.rs return.
use aion_trust.Prelude.{
  ℕ, zero, suc, ◌-◌, ◌≤◌, ◌≡◌, subst, inl, inr, List, [], ◌∷◌, arith, ltb, leb, Bool-cases, length,
  take, drop, length-take, length-drop, All, All-append, All-take, All-drop, Bytes, ok-injective,
  ok,
}
use aion_trust.Crypto.{Crypto, CryptoLaws, IsArray}
use aion_trust.Merkle.{
  split_point, node_hash, mth_fuel, mth, merkle_root, path_fuel, path, audit_path,
}
use aion_trust.Merkle.Split.{split_point_bounds}

module _ (c : Crypto) (laws : CryptoLaws c) where
  abbrev pub AreArrays : List Bytes → Type 0
  AreArrays = All (IsArray 32)

  mth_fuel-IsArray :
      (f : ℕ) (x : Bytes) (rest : List Bytes)
      → length (x ∷ rest) ≤ f
      → AreArrays (x ∷ rest)
      → IsArray 32 (mth_fuel c f (x ∷ rest))
  unfolding mth_fuel node_hash
  mth_fuel-IsArray zero x rest h a = absurd (omega (arith, h))
  mth_fuel-IsArray (suc f) x [] h a = a.0
  mth_fuel-IsArray (suc f) x (y ∷ rest) h a = laws.hash-IsArray _

  pub mth-IsArray :
      (leaves : List Bytes) → 1 ≤ length leaves → AreArrays leaves → IsArray 32 (mth c leaves)
  unfolding mth
  mth-IsArray [] h a = absurd (omega (arith, h))
  mth-IsArray (x ∷ rest) h a = mth_fuel-IsArray (length (x ∷ rest)) x rest (omega arith) a

  pub merkle_root-IsArray :
      (leaves : List Bytes) {root : Bytes}
      → AreArrays leaves
      → merkle_root c leaves ≡ ok root
      → IsArray 32 root
  unfolding merkle_root
  merkle_root-IsArray [] a e = cc
  merkle_root-IsArray (x ∷ rest) a e =
      subst (IsArray 32) (ok-injective e) (mth-IsArray (x ∷ rest) (omega arith) a)

  path_fuel-AreArrays :
      (f : ℕ) (leaves : List Bytes) (i : ℕ) → AreArrays leaves → AreArrays (path_fuel c f leaves i)
  unfolding path_fuel
  path_fuel-AreArrays zero leaves i a = tt
  path_fuel-AreArrays (suc f) [] i a = tt
  path_fuel-AreArrays (suc f) (x ∷ []) i a = tt
  path_fuel-AreArrays (suc f) (x ∷ y ∷ rest) i a =
      let leaves = x ∷ y ∷ rest in
      let k = split_point (length leaves) in
      let (lo, hi) = split_point_bounds (length leaves) (omega arith) in
      let left = All-take (IsArray 32) k leaves a in
      let right = All-drop (IsArray 32) k leaves a in
      elim (Bool-cases (ltb i k)) [
        | inl before ↦ rw before (
            All-append (IsArray 32) (path_fuel c f (take k leaves) i) (mth c (drop k leaves) ∷ [])
              (path_fuel-AreArrays f (take k leaves) i left)
              (mth-IsArray (drop k leaves) (omega (arith, length-drop k leaves, hi)) right, tt))
        | inr after ↦ rw after (
            All-append (IsArray 32) (path_fuel c f (drop k leaves) (i - k))
              (mth c (take k leaves) ∷ []) (path_fuel-AreArrays f (drop k leaves) (i - k) right)
              (mth-IsArray (take k leaves) (omega (arith, length-take k leaves, lo, hi)) left, tt))
      ]

  -- An audit path over 32-byte leaves is of 32-byte hashes.
  pub audit_path-AreArrays :
      (leaves : List Bytes) (i : ℕ) {p : List Bytes}
      → AreArrays leaves
      → audit_path c leaves i ≡ ok p
      → AreArrays p
  unfolding audit_path path
  audit_path-AreArrays [] i a e = cc
  audit_path-AreArrays (x ∷ rest) i a e = elim (Bool-cases (leb (length (x ∷ rest)) i)) [
    | inl out ↦ cc (rw out at e)
    | inr within ↦
        subst AreArrays (ok-injective (rw within at e))
          (path_fuel-AreArrays (length (x ∷ rest)) (x ∷ rest) i a)
  ]
