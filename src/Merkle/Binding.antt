-- ===== src/Merkle/Binding.antt =====
-- About `root_from_path` of crates/aion-trust-core/src/merkle.rs: what a root and a path commit to.
use aion_trust.Prelude.{
  ℕ, ◌-◌, ◌≤◌, ◌<◌, ◌≡◌, sym, ◌∙◌, ◌⊎◌, inl, inr, false≢true, some, List, [], ◌∷◌, reverse, arith,
  Bool-cases, get_elem?, All, Bytes, bytes_eq, bytes_eq→eq, bytes_eq_iff, >>=-eq-ok, ok,
}
use native.Mathlib.Decide.{dec_lt}
use aion_trust.Crypto.{Crypto, CryptoLaws, Collision}
use aion_trust.Encoding.Writer.Injective.{Fits, into_bytes-injective}
use aion_trust.Merkle.{field_node_domain, split_point, node_hash, path, climb}
use aion_trust.Merkle.Complete.{climb_left, climb_right}

module _ (c : Crypto) (laws : CryptoLaws c) where
  -- Equal hashes come from equal messages, or show a collision.
  pub hash_binding : (m n : Bytes) → c.hash m ≡ c.hash n → (m ≡ n) ⊎ Collision c
  hash_binding m n e = elim (Bool-cases (bytes_eq m n)) [
    | inl same ↦ inl (bytes_eq→eq m n same)
    | inr other ↦ inr (record {
      left = m;
      right = n;
      differ = λ p. false≢true (sym other ∙ (bytes_eq_iff m n).1 p);
      same_hash = e;
    })
  ]

  pub Fits-hash : (m : Bytes) → Fits (c.hash m)
  Fits-hash m = omega (arith, (laws.hash-IsArray m).len)

  pub Fits-node_hash : (l r : Bytes) → Fits (node_hash c l r)
  unfolding node_hash
  Fits-node_hash l r = Fits-hash _

  pub node_hash_binding :
      (l r l' r' : Bytes)
      → All Fits (l ∷ r ∷ [])
      → All Fits (l' ∷ r' ∷ [])
      → node_hash c l r ≡ node_hash c l' r'
      → (l ≡ l') × (r ≡ r') ⊎ Collision c
  unfolding node_hash
  node_hash_binding l r l' r' fits fits' e = elim (hash_binding _ _ e) [
    | inl same ↦
        let parts =
          into_bytes-injective field_node_domain field_node_domain (l ∷ r ∷ []) (l' ∷ r' ∷ [])
            (omega arith, fits) (omega arith, fits') same in
        inl (cc parts.1, cc parts.1)
    | inr found ↦ inr found
  ]

  -- A climb that succeeds below a node is inside a tree of two leaves or more.
  climb_inner :
      (leaf : Bytes) (i n : ℕ) (outer : Bytes) (inner : List Bytes) {root : Bytes}
      → climb c leaf i n (outer ∷ inner) ≡ ok root
      → (2 ≤ n) × (i < n)
  unfolding climb
  climb_inner leaf i n outer inner e = (ground arith, ground arith)

  -- The last step of a climb that succeeds.
  pub climb_last :
      (leaf : Bytes) (i n : ℕ) (outer : Bytes) (inner : List Bytes) {root : Bytes}
      → climb c leaf i n (outer ∷ inner) ≡ ok root
      → ((i < split_point n)
          × (l : Bytes) × (climb c leaf i (split_point n) inner ≡ ok l)
          × (node_hash c l outer ≡ root))
        ⊎ ((split_point n ≤ i)
            × (r : Bytes) × (climb c leaf (i - split_point n) (n - split_point n) inner ≡ ok r)
            × (node_hash c outer r ≡ root))
  climb_last leaf i n outer inner e =
      let (two, below) = climb_inner leaf i n outer inner e in
      elim (dec_lt i (split_point n)) [
        | yes lt ↦
            let (l, p, q) = >>=-eq-ok _ _ (sym (climb_left c leaf i n outer inner two lt) ∙ e) in
            inl (lt, l, p, cc q)
        | no ge ↦
            let le : split_point n ≤ i = omega arith in
            let (r, p, q) =
              >>=-eq-ok _ _ (sym (climb_right c leaf i n outer inner two le below) ∙ e) in
            inr (le, r, p, cc q)
      ]

  -- What a proof of membership comes to.
  abbrev pub Proves : List Bytes → ℕ → Bytes → List Bytes → Type 0
  Proves leaves i leaf rpath =
      (get_elem? leaves i ≡ some leaf) × (rpath ≡ reverse (path c leaves i))
