-- ===== src/Claims/DisclosureVerifier/NoOmission.antt =====
-- About `verify_reliance` of crates/aion-trust-claims/src/disclosure.rs: which indices are revealed.
use aion_trust.Prelude.{
  ℕ, zero, suc, ◌≤◌, ◌<◌, ◌≡◌, refl, sym, ap, subst, ◌∙◌, ◌≢◌, ◌⊎◌, inl, inr, false≢true, some,
  List, [], ◌∷◌, map, arith, ◌==◌, if◌then◌else◌, ==_iff, Bool-cases, length, get_elem?, All, Bytes,
  Text, ok,
}
use aion_trust.Crypto.{Crypto}
use aion_trust.Json.{Json}
use aion_trust.Claims.Disclosure.{RevealedReliance, DisclosedClaim}
use aion_trust.Claims.DisclosureVerifier.{VerifiedDisclosure, verify_with_required}
use aion_trust.Claims.DisclosureVerifier.Reliance.{IndicesDiffer, IsProvenReliance}
use aion_trust.Claims.DisclosureVerifier.Sound.{verify_with_required-IsVerified}

abbrev AreDistinct : List ℕ → Type 0
AreDistinct [] = Unit
AreDistinct (x ∷ xs) = All (λ y. y ≢ x) xs × AreDistinct xs

abbrev without : ℕ → List ℕ → List ℕ
without k [] = []
without k (x ∷ xs) = if x == k then without k xs else x ∷ without k xs

All-without : (P : ℕ → Type 0) (k : ℕ) (xs : List ℕ) → All P xs → All P (without k xs)
All-without P k [] h = tt
All-without P k (x ∷ xs) (hx, h) = elim (Bool-cases (x == k)) [
  | inl same ↦ rw same (All-without P k xs h)
  | inr other ↦ rw other (hx, All-without P k xs h)
]

without-AreDistinct : (k : ℕ) (xs : List ℕ) → AreDistinct xs → AreDistinct (without k xs)
without-AreDistinct k [] h = tt
without-AreDistinct k (x ∷ xs) (hx, h) = elim (Bool-cases (x == k)) [
  | inl same ↦ rw same (without-AreDistinct k xs h)
  | inr other ↦ rw other (All-without (λ y. y ≢ x) k xs hx, without-AreDistinct k xs h)
]

without_below : (n : ℕ) (xs : List ℕ) → All (λ x. x < suc n) xs → All (λ x. x < n) (without n xs)
without_below n [] h = tt
without_below n (x ∷ xs) (hx, h) = elim (Bool-cases (x == n)) [
  | inl same ↦ rw same (without_below n xs h)
  | inr other ↦ rw other (ground (arith, hx, other), without_below n xs h)
]

without_absent : (k : ℕ) (xs : List ℕ) → All (λ y. y ≢ k) xs → without k xs ≡ xs
without_absent k [] h = refl
without_absent k (x ∷ xs) (hx, h) = elim (Bool-cases (x == k)) [
  | inl same ↦ absurd (hx ((==_iff x k).0 same))
  | inr other ↦ rw other (ap (λ ys. x ∷ ys) (without_absent k xs h))
]

length-without : (k : ℕ) (xs : List ℕ) → AreDistinct xs → length xs ≤ suc (length (without k xs))
length-without k [] h = omega arith
length-without k (x ∷ xs) (hx, h) = elim (Bool-cases (x == k)) [
  | inl same ↦
      let absent =
        without_absent k xs (subst (λ y. All (λ z. z ≢ y) xs) ((==_iff x k).0 same) hx) in
      rw (same, absent) (omega arith)
  | inr other ↦ rw other (omega (arith, length-without k xs h))
]

-- Different numbers below a bound are no more than the bound.
pigeonhole : (n : ℕ) (xs : List ℕ) → AreDistinct xs → All (λ x. x < n) xs → length xs ≤ n
pigeonhole zero [] h below = omega arith
pigeonhole zero (x ∷ xs) h (hx, below) = absurd (omega (arith, hx))
pigeonhole (suc n) xs h below = omega (
  arith,
  length-without n xs h,
  pigeonhole n (without n xs) (without-AreDistinct n xs h) (without_below n xs below),
)

-- A leaf with this index.
pub record IsRevealedAt (reliance : List RevealedReliance) (index : ℕ) : Type 0 where
  pub at : ℕ
  pub leaf : RevealedReliance
  pub listed : get_elem? reliance at ≡ some leaf
  pub same_index : leaf.index ≡ index

abbrev indices : List RevealedReliance → List ℕ
indices = map (λ (r : RevealedReliance). r.index)

later_index :
    (r : RevealedReliance) (rs : List RevealedReliance) (i : ℕ)
    → IsRevealedAt rs i
    → IsRevealedAt (r ∷ rs) i
later_index r rs i s = record {
  at = suc s.at;
  leaf = s.leaf;
  listed = s.listed;
  same_index = s.same_index;
}

find_index :
    (rs : List RevealedReliance) (i : ℕ) → IsRevealedAt rs i ⊎ All (λ y. y ≢ i) (indices rs)
find_index [] i = inr tt
find_index (r ∷ rs) i = elim (Bool-cases (r.index == i)) [
  | inl same ↦
      inl (record { at = 0; leaf = r; listed = refl; same_index = (==_iff r.index i).0 same })
  | inr other ↦ elim (find_index rs i) [
    | inl shown ↦ inl (later_index r rs i shown)
    | inr absent ↦ inr ((λ same. false≢true (sym other ∙ (==_iff r.index i).1 same)), absent)
  ]
]

All-indices :
    (P : ℕ → Type 0) (rs : List RevealedReliance)
    → All (λ (r : RevealedReliance). P r.index) rs
    → All P (indices rs)
All-indices P [] h = tt
All-indices P (r ∷ rs) (hr, h) = (hr, All-indices P rs h)

indices-AreDistinct : (rs : List RevealedReliance) → IndicesDiffer rs → AreDistinct (indices rs)
indices-AreDistinct [] h = tt
indices-AreDistinct (r ∷ rs) (hr, h) =
    (All-indices (λ y. y ≢ r.index) rs hr, indices-AreDistinct rs h)

length-indices : (rs : List RevealedReliance) → length (indices rs) ≡ length rs
length-indices [] = refl
length-indices (r ∷ rs) = ap suc (length-indices rs)

every_index :
    (n : ℕ) (rs : List RevealedReliance)
    → length rs ≡ n
    → IndicesDiffer rs
    → All (λ (r : RevealedReliance). r.index < n) rs
    → (i : ℕ) → i < n
    → IsRevealedAt rs i
every_index n rs exact differ below i lt = elim (find_index rs i) [
  | inl shown ↦ shown
  | inr absent ↦ absurd (
      omega (
        arith,
        exact,
        length-indices rs,
        pigeonhole n (i ∷ indices rs) (absent, indices-AreDistinct rs differ)
            (lt, All-indices (λ y. y < n) rs below),
      ))
]

module _ (c : Crypto) (j : Json) where
  all_below :
      (count : ℕ) (root : Bytes) (rs : List RevealedReliance)
      → All (IsProvenReliance c j count root) rs
      → All (λ (r : RevealedReliance). r.index < count) rs
  all_below count root [] h = tt
  all_below count root (r ∷ rs) (hr, h) = (hr.within, all_below count root rs h)

  -- No omission: in a disclosure that verifies, every index below the committed number of relied-upon
  -- claims is the index of some revealed leaf, so that no target is left out.
  pub no_omission :
      (d : DisclosedClaim j) (issuer_vk : c.VerifyingKey) (required : List Text)
      {v : VerifiedDisclosure j}
      → verify_with_required c j d issuer_vk required ≡ ok v
      → (i : ℕ) → i < d.reliance_count
      → IsRevealedAt d.reliance i
  no_omission d issuer_vk required e i lt =
      let v = verify_with_required-IsVerified c j d issuer_vk required e in
      let exact = v.reliance_exact in
      every_index d.reliance_count d.reliance exact.exact exact.differ
        (all_below d.reliance_count v.reliance_root d.reliance exact.proven) i lt
