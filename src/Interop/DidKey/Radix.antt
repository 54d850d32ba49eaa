-- ===== src/Interop/DidKey/Radix.antt =====
-- About the change of radix in `base58btc_encode` and `base58btc_decode` of
-- crates/aion-trust-interop/src/didkey.rs.
use native.Mathlib.Nat.{mod-add-div, mod-lt, div-lt_self}
use aion_trust.Prelude.{
  ℕ, zero, suc, ◌+◌, ◌-◌, ◌*◌, ◌/◌, ◌%◌, ◌≤◌, ◌<◌, ◌≡◌, refl, sym, ap, ap₂, subst, ◌∙◌, inl, inr,
  List, [], ◌∷◌, ◌++◌, reverse, append_assoc, reverse-append, arith, ◌==◌, ==_iff, Bool-cases,
  replicate, All,
}
use aion_trust.Interop.DidKey.{push_carry, absorb, absorb_all}

-- The number that digits stand for, the least digit first, and the greatest first.
unfoldable pub value : ℕ → List ℕ → ℕ
value base [] = 0
value base (d ∷ ds) = d + base * value base ds

unfoldable pub big : ℕ → ℕ → List ℕ → ℕ
big base n [] = n
big base n (x ∷ xs) = big base (x + base * n) xs

-- Digits below the base, with no zero on top.
abbrev pub IsCanonical : ℕ → List ℕ → Type 0
IsCanonical base [] = Unit
IsCanonical base (d ∷ ds) = (d < base) × (1 ≤ value base (d ∷ ds)) × IsCanonical base ds

mul_positive : (a b : ℕ) → 1 ≤ a → 1 ≤ b → 1 ≤ a * b
mul_positive zero b ha hb = absurd (omega (arith, ha))
mul_positive (suc a) b ha hb = omega (arith, hb)

module _ (base : ℕ) (large : 2 ≤ base) where
  shrinks : (n : ℕ) → 1 ≤ n → n / base < n
  shrinks n h = div-lt_self h large

  mod_bound : (n : ℕ) → n % base < base
  mod_bound n = mod-lt n (omega (arith, large))

  value-push_carry :
      (fuel carry : ℕ) → carry < fuel → value base (push_carry base fuel carry) ≡ carry
  unfolding push_carry value
  value-push_carry zero carry h = absurd (omega (arith, h))
  value-push_carry (suc fuel) carry h = elim (Bool-cases (carry == 0)) [
    | inl none_left ↦ rw none_left (sym ((==_iff carry 0).0 none_left))
    | inr more ↦
        let positive : 1 ≤ carry = ground (arith, more) in
        let rest =
          value-push_carry fuel (carry / base) (omega (arith, h, shrinks carry positive)) in
        rw (more, rest) (mod-add-div carry base)
  ]

  push_carry-IsCanonical :
      (fuel carry : ℕ) → carry < fuel → IsCanonical base (push_carry base fuel carry)
  unfolding push_carry value
  push_carry-IsCanonical zero carry h = tt
  push_carry-IsCanonical (suc fuel) carry h = elim (Bool-cases (carry == 0)) [
    | inl none_left ↦ rw none_left tt
    | inr more ↦
        let positive : 1 ≤ carry = ground (arith, more) in
        let fits : carry / base < fuel = omega (arith, h, shrinks carry positive) in
        let rest = value-push_carry fuel (carry / base) fits in
        let whole : carry % base + base * value base (push_carry base fuel (carry / base)) ≡ carry =
          rw rest (mod-add-div carry base) in
        rw more (
          mod_bound carry,
          subst (λ n. 1 ≤ n) (sym whole) positive,
          push_carry-IsCanonical fuel (carry / base) fits,
        )
  ]

  value-absorb :
      (mult carry : ℕ) (ds : List ℕ)
      → value base (absorb mult base carry ds) ≡ carry + mult * value base ds
  unfolding absorb value
  value-absorb mult carry [] = value-push_carry (suc carry) carry (omega arith) ∙ omega arith
  value-absorb mult carry (d ∷ ds) =
      let c = carry + d * mult in
      let rest = value-absorb mult (c / base) ds in rw rest (omega (arith, mod-add-div c base))

  absorb-IsCanonical :
      (mult carry : ℕ) (ds : List ℕ)
      → 1 ≤ mult
      → IsCanonical base ds
      → IsCanonical base (absorb mult base carry ds)
  unfolding absorb value
  absorb-IsCanonical mult carry [] h can = push_carry-IsCanonical (suc carry) carry (omega arith)
  absorb-IsCanonical mult carry (d ∷ ds) h (small, some_value, can) =
      let whole = value-absorb mult carry (d ∷ ds) in
      (
        mod_bound (carry + d * mult),
        subst (λ n. 1 ≤ n) (sym whole)
            (omega (arith, mul_positive mult (value base (d ∷ ds)) h some_value)),
        absorb-IsCanonical mult ((carry + d * mult) / base) ds h can,
      )

  pub value-absorb_all :
      (mult : ℕ) (ds xs : List ℕ)
      → value base (absorb_all mult base ds xs) ≡ big mult (value base ds) xs
  unfolding absorb_all big
  value-absorb_all mult ds [] = refl
  value-absorb_all mult ds (x ∷ xs) =
      value-absorb_all mult (absorb mult base x ds) xs
      ∙ ap (λ n. big mult n xs) (value-absorb mult x ds)

  pub absorb_all-IsCanonical :
      (mult : ℕ) (ds xs : List ℕ)
      → 1 ≤ mult
      → IsCanonical base ds
      → IsCanonical base (absorb_all mult base ds xs)
  unfolding absorb_all
  absorb_all-IsCanonical mult ds [] h can = can
  absorb_all-IsCanonical mult ds (x ∷ xs) h can =
      absorb_all-IsCanonical mult (absorb mult base x ds) xs h (absorb-IsCanonical mult x ds h can)

  -- The last digit of equal numbers is the same, and so is the rest.
  below : (d e v w : ℕ) → d < base → e + base * w ≡ d + base * v → ¬ (v < w)
  below d e v w small same lt =
      let k = w - v - 1 in
      let w_is : w ≡ v + 1 + k = omega (arith, lt) in
      let moved : e + base * (v + 1 + k) ≡ d + base * v =
        ap (λ n. e + base * n) (sym w_is) ∙ same in
      omega (arith, moved, small)

  -- Digits without a zero on top are determined by their number.
  pub IsCanonical-unique :
      (xs ys : List ℕ)
      → IsCanonical base xs
      → IsCanonical base ys
      → value base xs ≡ value base ys
      → xs ≡ ys
  unfolding value
  IsCanonical-unique [] [] hx hy e = refl
  IsCanonical-unique [] (y ∷ ys) hx (small, some_value, can) e =
      absurd (omega (arith, some_value, e))
  IsCanonical-unique (x ∷ xs) [] (small, some_value, can) hy e =
      absurd (omega (arith, some_value, e))
  IsCanonical-unique (x ∷ xs) (y ∷ ys) (x_small, x_value, x_can) (y_small, y_value, y_can) e =
      let v = value base xs in
      let w = value base ys in
      let same_rest : v ≡ w =
        omega (arith, below x y v w x_small (sym e), below y x w v y_small e) in
      let same_digit : x ≡ y = omega (arith, e, ap (λ n. base * n) same_rest) in
      ap₂ (λ d ds. d ∷ ds) same_digit (IsCanonical-unique xs ys x_can y_can same_rest)

  value_snoc : (ds : List ℕ) (d : ℕ) → 1 ≤ d → 1 ≤ value base (ds ++ d ∷ [])
  unfolding value
  value_snoc [] d h = omega (arith, h)
  value_snoc (e ∷ ds) d h = omega (
    arith,
    mul_positive base (value base (ds ++ d ∷ [])) (omega (arith, large)) (value_snoc ds d h),
  )

  pub IsCanonical-snoc :
      (ds : List ℕ) (d : ℕ)
      → All (λ x. x < base) ds
      → 1 ≤ d
      → d < base
      → IsCanonical base (ds ++ d ∷ [])
  unfolding value
  IsCanonical-snoc [] d h positive small = (small, omega (arith, positive), tt)
  IsCanonical-snoc (e ∷ ds) d (he, h) positive small =
      (he, value_snoc (e ∷ ds) d positive, IsCanonical-snoc ds d h positive small)

  pub IsCanonical-top : (ds : List ℕ) (d : ℕ) → IsCanonical base (ds ++ d ∷ []) → 1 ≤ d
  unfolding value
  IsCanonical-top [] d (small, some_value, can) = omega (arith, some_value)
  IsCanonical-top (e ∷ ds) d (small, some_value, can) = IsCanonical-top ds d can

  pub IsCanonical-All : (ds : List ℕ) → IsCanonical base ds → All (λ x. x < base) ds
  IsCanonical-All [] can = tt
  IsCanonical-All (d ∷ ds) (small, some_value, can) = (small, IsCanonical-All ds can)

  -- The greatest digit first is the least digit first, reversed.
  pub big-value : (xs ds : List ℕ) → big base (value base ds) xs ≡ value base (reverse xs ++ ds)
  unfolding big value
  big-value [] ds = refl
  big-value (x ∷ xs) ds =
      big-value xs (x ∷ ds)
      ∙ ap (value base) (
          sym (append_assoc (reverse xs) (x ∷ []) ds)
          ∙ ap (λ t. t ++ ds) (sym (reverse-append (x ∷ []) xs)))

  pub big_zeros : (z : ℕ) (xs : List ℕ) → big base 0 (replicate z 0 ++ xs) ≡ big base 0 xs
  unfolding big replicate
  big_zeros zero xs = refl
  big_zeros (suc z) xs = ap (λ n. big base n (replicate z 0 ++ xs)) (omega arith) ∙ big_zeros z xs
