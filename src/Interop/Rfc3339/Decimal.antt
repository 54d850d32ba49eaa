-- ===== src/Interop/Rfc3339/Decimal.antt =====
-- About the numbers in the texts of crates/aion-trust-interop/src/rfc3339.rs.
use aion_trust.Prelude.{
  ℕ, zero, suc, ◌+◌, ◌/◌, ◌%◌, ◌≤◌, ◌<◌, ◌≡◌, refl, inl, inr, true, false, [], ◌∷◌, ◌++◌, arith,
  ltb, Bool-cases, replicate, ok,
}
use aion_trust.Prelude.Int.{pos}
use aion_trust.Interop.Rfc3339.{
  decimal_fuel, decimal, padded, parse_digits, parse_unsigned, within_i64, parse_i64, num,
}

-- More fuel changes nothing.
decimal_fuel-enough : (f g n : ℕ) → n < f → n < g → decimal_fuel f n ≡ decimal_fuel g n
unfolding decimal_fuel
decimal_fuel-enough zero g n hf hg = absurd (omega (arith, hf))
decimal_fuel-enough (suc f) zero n hf hg = absurd (omega (arith, hg))
decimal_fuel-enough (suc f) (suc g) n hf hg = elim (Bool-cases (ltb n 10)) [
  | inl one_digit ↦ rw one_digit refl
  | inr more ↦
      let large : 10 ≤ n = ground (arith, more) in
      let same =
        decimal_fuel-enough f g (n / 10) (omega (arith, hf, large)) (omega (arith, hg, large)) in
      rw (more, same) refl
]

pub decimal_digit : (n : ℕ) → n < 10 → decimal n ≡ (48 + n) ∷ []
unfolding decimal decimal_fuel
decimal_digit n h = let one_digit : ltb n 10 ≡ true = ground (arith, h) in rw one_digit refl

-- The digits of a number with more than one: those of its tenth, and the last.
pub decimal_step : (n : ℕ) → 10 ≤ n → decimal n ≡ decimal (n / 10) ++ (48 + n % 10) ∷ []
unfolding decimal decimal_fuel
decimal_step n h =
    let more : ltb n 10 ≡ false = ground (arith, h) in
    let same = decimal_fuel-enough n (suc (n / 10)) (n / 10) (omega (arith, h)) (omega arith) in
    rw (more, same) refl

pub padded_two : (n : ℕ) → n < 100 → padded 2 (pos n) ≡ (48 + n / 10) ∷ (48 + n % 10) ∷ []
unfolding padded replicate
padded_two n h = elim (Bool-cases (ltb n 10)) [
  | inl one_digit ↦
      let small : n < 10 = ground (arith, one_digit) in
      let tens : n / 10 ≡ 0 = omega (arith, small) in
      let ones : n % 10 ≡ n = omega (arith, small) in rw (decimal_digit n small, tens, ones) refl
  | inr more ↦
      let large : 10 ≤ n = ground (arith, more) in
      rw (decimal_step n large, decimal_digit (n / 10) (omega (arith, h))) refl
]

two_digits : (n : ℕ) → 10 ≤ n → n < 100 → decimal n ≡ (48 + n / 10) ∷ (48 + n % 10) ∷ []
two_digits n large h = rw (decimal_step n large, decimal_digit (n / 10) (omega (arith, h))) refl

four :
    {a b c d a' b' c' d' : ℕ}
    → a ≡ a'
    → b ≡ b'
    → c ≡ c'
    → d ≡ d'
    → a ∷ b ∷ c ∷ d ∷ [] ≡ a' ∷ b' ∷ c' ∷ d' ∷ []
four ea eb ec ed = cc (ea, eb, ec, ed)

pub padded_four :
    (n : ℕ)
    → n < 10000
    → padded 4 (pos n)
      ≡ (48 + n / 1000) ∷ (48 + n / 100 % 10) ∷ (48 + n / 10 % 10) ∷ (48 + n % 10) ∷ []
unfolding padded replicate
padded_four n h = elim (Bool-cases (ltb n 10)) [
  | inl lt10 ↦
      let small : n < 10 = ground (arith, lt10) in
      rw (decimal_digit n small) (
        four (omega (arith, small)) (omega (arith, small)) (omega (arith, small))
          (omega (arith, small)))
  | inr ge10 ↦ elim (Bool-cases (ltb n 100)) [
    | inl lt100 ↦
        let small : n < 100 = ground (arith, lt100) in
        rw (two_digits n (ground (arith, ge10)) small)
          (four (omega (arith, small)) (omega (arith, small)) (omega (arith, small)) refl)
    | inr ge100 ↦
        let large : 100 ≤ n = ground (arith, ge100) in
        elim (Bool-cases (ltb n 1000)) [
          | inl lt1000 ↦
              let small : n < 1000 = ground (arith, lt1000) in
              rw
                (
                  decimal_step n (omega (arith, large)),
                  two_digits (n / 10) (omega (arith, large)) (omega (arith, small)),
                )
                (four (omega (arith, small)) (omega (arith, small)) refl refl)
          | inr ge1000 ↦
              let more : 1000 ≤ n = ground (arith, ge1000) in
              rw
                (
                  decimal_step n (omega (arith, more)),
                  decimal_step (n / 10) (omega (arith, more)),
                  two_digits (n / 10 / 10) (omega (arith, more)) (omega (arith, h)),
                )
                (four (omega arith) (omega arith) refl refl)
        ]
  ]
]

pub num_two : (n : ℕ) → n < 100 → num ((48 + n / 10) ∷ (48 + n % 10) ∷ []) ≡ ok (pos n)
unfolding num parse_i64 parse_unsigned parse_digits within_i64
num_two n h = ground (arith, h)

pub num_four :
    (n : ℕ)
    → n < 10000
    → num ((48 + n / 1000) ∷ (48 + n / 100 % 10) ∷ (48 + n / 10 % 10) ∷ (48 + n % 10) ∷ [])
      ≡ ok (pos n)
unfolding num parse_i64 parse_unsigned parse_digits within_i64
num_four n h = ground (arith, h)
