-- ===== src/Merkle/Split.antt =====
-- About `split_point` of crates/aion-trust-core/src/merkle.rs: its bounds and powers of two.
use aion_trust.Prelude.{
  ℕ, zero, suc, ◌+◌, ◌*◌, ◌^◌, ◌≤◌, ◌<◌, ◌≡◌, refl, sym, ap, ◌∙◌, inl, inr, true, arith, ltb,
  Bool-cases,
}
use mathlib.Core.Path.{subst}
use native.Mathlib.Nat.{pow-suc}
use aion_trust.Merkle.{saturating_double, grow, split_point}

grow_bounds : (fuel n k : ℕ) → 1 ≤ k → k < n → (1 ≤ grow fuel n k) × (grow fuel n k < n)
unfolding grow
grow_bounds zero n k h l = (h, l)
grow_bounds (suc fuel) n k h l = elim (Bool-cases (ltb (saturating_double k) n)) [
  | inl more ↦
      rw (more, grow) (grow_bounds fuel n (saturating_double k) (ground arith) (ground arith))
  | inr done ↦ rw (done, grow) (h, l)
]

-- Both halves of a split are non-empty.
pub split_point_bounds : (n : ℕ) → 2 ≤ n → (1 ≤ split_point n) × (split_point n < n)
unfolding split_point
split_point_bounds n h = grow_bounds n n 1 (omega arith) (omega arith)

-- The powers of two.
abbrev pub IsPowerOfTwo : ℕ → Type 0
IsPowerOfTwo k = (e : ℕ) × (k ≡ 2 ^ e)

double-IsPowerOfTwo : (k : ℕ) → IsPowerOfTwo k → IsPowerOfTwo (k * 2)
double-IsPowerOfTwo k (e, p) = (suc e, ap (λ (n : ℕ). n * 2) p ∙ sym (pow-suc 2 e))

-- Below 2^64 the product does not saturate.
double_exact :
    (n k : ℕ) → n < 2 ^ 64 → ltb (saturating_double k) n ≡ true → k * 2 ≡ saturating_double k
unfolding saturating_double
double_exact n k small more = ground arith

grow_power :
    (fuel n k : ℕ)
    → n < 2 ^ 64
    → n ≤ fuel + k
    → 1 ≤ k
    → k < n
    → IsPowerOfTwo k
    → IsPowerOfTwo (grow fuel n k) × (n ≤ 2 * grow fuel n k)
unfolding grow
grow_power zero n k small enough h l p = absurd (omega arith)
grow_power (suc fuel) n k small enough h l p = elim (Bool-cases (ltb (saturating_double k) n)) [
  | inl more ↦
      rw (more, grow)
        (grow_power fuel n (saturating_double k) small (omega (arith, double_exact n k small more))
          (omega (arith, double_exact n k small more)) (ground arith)
          (subst IsPowerOfTwo (double_exact n k small more) (double-IsPowerOfTwo k p)))
  | inr done ↦ rw (done, grow) (p, ground arith)
]

-- The split point of at least two leaves, fewer than 2^64 as a `usize` counts, is the largest power
-- of two below their number: it is a power of two, it is below, and twice it is not.
pub split_point_lem :
    (n : ℕ)
    → 2 ≤ n
    → n < 2 ^ 64
    → IsPowerOfTwo (split_point n) × (split_point n < n) × (n ≤ 2 * split_point n)
unfolding split_point
split_point_lem n h small =
    let (p, q) = grow_power n n 1 small (omega arith) (omega arith) (omega arith) (0, refl) in
    (p, (split_point_bounds n h).1, q)
