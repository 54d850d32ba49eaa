-- ===== src/Merkle/TreeHash.antt =====
-- About the shape of the tree behind `merkle_root` of crates/aion-trust-core/src/merkle.rs, as RFC 6962
-- describes it.
use aion_trust.Prelude.{
  length, length-append, ap₂, ◌↔◌, ◌*◌, ◌∙◌, inl, inr, Bool-cases, ltb, ◌==◌, err≢ok, ok-injective,
  ℕ, zero, suc, ◌^◌, ◌≤◌, ◌<◌, ◌≡◌, refl, sym, ap, subst, List, [], ◌∷◌, ◌++◌, arith, take, drop,
  length-take, length-drop, Bytes, ok,
}
use native.Mathlib.Nat.{pow-suc}
use aion_trust.Crypto.{Crypto}
use aion_trust.Encoding.Writer.{new, field, into_bytes, ◌▸◌}
use aion_trust.Merkle.{field_node_domain, split_point, node_hash, mth_fuel, mth, merkle_root}
use aion_trust.Merkle.Tree.{mth_lem}
use aion_trust.Merkle.Split.{IsPowerOfTwo, split_point_lem}

take-drop : (k : ℕ) (xs : List Bytes) → take k xs ++ drop k xs ≡ xs
take-drop zero xs = refl
take-drop (suc k) [] = refl
take-drop (suc k) (x ∷ xs) = ap (λ ys. x ∷ ys) (take-drop k xs)

take-append : (xs ys : List Bytes) → take (length xs) (xs ++ ys) ≡ xs
take-append [] ys = refl
take-append (x ∷ xs) ys = ap (λ zs. x ∷ zs) (take-append xs ys)

drop-append : (xs ys : List Bytes) → drop (length xs) (xs ++ ys) ≡ ys
drop-append [] ys = refl
drop-append (x ∷ xs) ys = drop-append xs ys

doubled_below : (e f : ℕ) → e < f → 2 ^ e * 2 ≤ 2 ^ f
doubled_below e zero h = absurd (omega arith)
doubled_below e (suc f) h = elim (Bool-cases (e == f)) [
  | inl same ↦ let e_is_f : e ≡ f = ground (arith, same) in rw e_is_f (omega (arith, pow-suc 2 f))
  | inr other ↦ omega (arith, pow-suc 2 f, doubled_below e f (ground (arith, other)))
]

-- There is one power of two that is below a number and at least half of it.
one_power :
    (n a b : ℕ) → IsPowerOfTwo a → a < n → n ≤ 2 * a → IsPowerOfTwo b → b < n → n ≤ 2 * b → a ≡ b
one_power n a b (e, p) a_below a_half (f, q) b_below b_half = elim (Bool-cases (ltb e f)) [
  | inl less ↦ absurd (omega (arith, p, q, doubled_below e f (ground (arith, less))))
  | inr not_less ↦ elim (Bool-cases (ltb f e)) [
    | inl more ↦ absurd (omega (arith, p, q, doubled_below f e (ground (arith, more))))
    | inr not_more ↦ p ∙ ap (λ i. 2 ^ i) (ground (arith, not_less, not_more)) ∙ sym q
  ]
]

module _ (c : Crypto) where
  -- A Merkle tree hash as RFC 6962 describes it, with the node domain of this program: one leaf is
  -- its own hash; more are the hash of a node over a first part, of a power of two of leaves, and
  -- the rest, which is not empty and no larger.
  pub data IsTreeHash : List Bytes → Bytes → Type 0 where
    leaf : (hash : Bytes) → IsTreeHash (hash ∷ []) hash
    node :
        {xs ys : List Bytes} {left right : Bytes}
        → IsPowerOfTwo (length xs)
        → 1 ≤ length ys
        → length ys ≤ length xs
        → IsTreeHash xs left
        → IsTreeHash ys right
        → IsTreeHash
            (xs ++ ys)
            (c.hash (new field_node_domain ▸ field left ▸ field right ▸ into_bytes))

  mth-IsTreeHash :
      (fuel : ℕ) (leaves : List Bytes)
      → 1 ≤ length leaves
      → length leaves ≤ fuel
      → length leaves < 2 ^ 64
      → IsTreeHash leaves (mth_fuel c fuel leaves)
  unfolding mth_fuel node_hash
  mth-IsTreeHash zero leaves h enough small = absurd (omega arith)
  mth-IsTreeHash (suc fuel) [] h enough small = absurd (omega arith)
  mth-IsTreeHash (suc fuel) (single ∷ []) h enough small = leaf single
  mth-IsTreeHash (suc fuel) (x ∷ y ∷ rest) h enough small =
      let leaves : List Bytes = x ∷ y ∷ rest in
      let k = split_point (length leaves) in
      let (power, below, half) = split_point_lem (length leaves) (omega arith) small in
      let l : length (take k leaves) ≡ k = omega (arith, length-take k leaves) in
      let r = length-drop k leaves in
      let one : 1 ≤ k = omega arith in
      subst
        (λ whole. IsTreeHash whole (
          c.hash (
            new field_node_domain
            ▸ field (mth_fuel c fuel (take k leaves))
            ▸ field (mth_fuel c fuel (drop k leaves))
            ▸ into_bytes)))
        (take-drop k leaves)
        (node (subst IsPowerOfTwo (sym l) power) (omega (arith, r)) (omega (arith, l, r, half))
          (mth-IsTreeHash fuel (take k leaves) (omega arith) (omega arith) (omega arith))
          (mth-IsTreeHash fuel (drop k leaves) (omega (arith, r)) (omega (arith, r))
            (omega (arith, r))))

  IsTreeHash-some :
      {leaves : List Bytes} {hash : Bytes} → IsTreeHash leaves hash → 1 ≤ length leaves
  IsTreeHash-some (leaf hash) = omega arith
  IsTreeHash-some (node {xs = xs} {ys = ys} power some_right no_more left right) =
      omega (arith, length-append xs ys, some_right)

  single_mth : (hash : Bytes) → mth c (hash ∷ []) ≡ hash
  unfolding mth mth_fuel
  single_mth hash = refl

  IsTreeHash-mth :
      {leaves : List Bytes} {hash : Bytes}
      → IsTreeHash leaves hash
      → length leaves < 2 ^ 64
      → mth c leaves ≡ hash
  unfolding node_hash
  IsTreeHash-mth (leaf hash) small = single_mth hash
  IsTreeHash-mth (node {xs = xs} {ys = ys} power some_right no_more left right) small =
      let l = length-append xs ys in
      let some_left = IsTreeHash-some left in
      let n = length (xs ++ ys) in
      let (power', below, half) = split_point_lem n (omega (arith, l)) small in
      let k : split_point n ≡ length xs =
        one_power n (split_point n) (length xs) power' below half power (omega (arith, l))
          (omega (arith, l)) in
      mth_lem c (xs ++ ys) (omega (arith, l))
      ∙ ap₂ (node_hash c)
          (ap (mth c) (ap (λ i. take i (xs ++ ys)) k ∙ take-append xs ys)
            ∙ IsTreeHash-mth left (omega (arith, l)))
          (ap (mth c) (ap (λ i. drop i (xs ++ ys)) k ∙ drop-append xs ys)
            ∙ IsTreeHash-mth right (omega (arith, l)))

  -- Of fewer than 2^64 leaves, a hash is the Merkle root exactly when it is their tree hash as
  -- RFC 6962 describes it, with the node domain of this program.
  pub merkle_root-IsTreeHash :
      (leaves : List Bytes) (root : Bytes)
      → length leaves < 2 ^ 64
      → (merkle_root c leaves ≡ ok root) ↔ IsTreeHash leaves root
  unfolding merkle_root mth
  merkle_root-IsTreeHash [] root small =
      (λ e. absurd (err≢ok e), λ t. absurd (omega (arith, IsTreeHash-some t)))
  merkle_root-IsTreeHash (x ∷ rest) root small =
      let t = mth-IsTreeHash (length (x ∷ rest)) (x ∷ rest) (omega arith) (omega arith) small in
      (λ e. subst (IsTreeHash (x ∷ rest)) (ok-injective e) t, λ t'. ap ok (IsTreeHash-mth t' small))
