-- ===== src/Encoding/Words.antt =====
-- `to_be_bytes` of the fixed-width integers, as the writer uses it.
use aion_trust.Prelude.{
  ℕ, zero, suc, ◌+◌, ◌-◌, ◌*◌, ◌/◌, ◌%◌, ◌^◌, ◌<◌, ◌≡◌, refl, ap, [], ◌∷◌, ◌++◌, arith, length,
  length-append, All-append, Bytes, AreBytes,
}
use aion_trust.Prelude.Int.{ℤ, IsInt64, IsInt64, pos, negsuc}

-- The `w` bytes of `n`, most significant first, of which higher bits are cut off.
abbrev pub be_bytes : ℕ → ℕ → Bytes
be_bytes zero n = []
be_bytes (suc w) n = be_bytes w (n / 256) ++ (n % 256) ∷ []

-- The two's-complement bit pattern of an `i64`.
abbrev pub i64_bits : ℤ → ℕ
i64_bits (pos n) = n
i64_bits (negsuc n) = 2 ^ 64 - 1 - n

pub length-be_bytes : (w n : ℕ) → length (be_bytes w n) ≡ w
length-be_bytes zero n = refl
length-be_bytes (suc w) n =
    omega
      (arith, length-append (be_bytes w (n / 256)) ((n % 256) ∷ []), length-be_bytes w (n / 256))

pub be_bytes-AreBytes : (w n : ℕ) → AreBytes (be_bytes w n)
be_bytes-AreBytes zero n = tt
be_bytes-AreBytes (suc w) n =
    All-append _ (be_bytes w (n / 256)) ((n % 256) ∷ []) (be_bytes-AreBytes w (n / 256))
      (omega arith)

-- The number that big-endian bytes spell behind `n`.
abbrev pub be_value : ℕ → Bytes → ℕ
be_value n [] = n
be_value n (b ∷ bs) = be_value (n * 256 + b) bs

-- Four bytes hold every u32, eight every u64.
pub be_value-be_bytes_4 : (n : ℕ) → n < 2 ^ 32 → be_value 0 (be_bytes 4 n) ≡ n
be_value-be_bytes_4 n h = omega arith

pub be_value-be_bytes_8 : (n : ℕ) → n < 2 ^ 64 → be_value 0 (be_bytes 8 n) ≡ n
be_value-be_bytes_8 n h = omega arith

pub be_bytes_4-injective : (m n : ℕ) → m < 2 ^ 32 → n < 2 ^ 32 → be_bytes 4 m ≡ be_bytes 4 n → m ≡ n
be_bytes_4-injective m n hm hn e =
    omega (arith, be_value-be_bytes_4 m hm, be_value-be_bytes_4 n hn, ap (be_value 0) e)

pub i64_bits-injective : (a b : ℤ) → IsInt64 a → IsInt64 b → i64_bits a ≡ i64_bits b → a ≡ b
i64_bits-injective a b ha hb e = ground arith

i64_bits_bound : (a : ℤ) → IsInt64 a → i64_bits a < 2 ^ 64
i64_bits_bound (pos n) h = omega arith
i64_bits_bound (negsuc n) h = omega arith

pub be_bytes_i64-injective :
    (a b : ℤ) → IsInt64 a → IsInt64 b → be_bytes 8 (i64_bits a) ≡ be_bytes 8 (i64_bits b) → a ≡ b
be_bytes_i64-injective a b ha hb e = i64_bits-injective a b ha hb (
    omega (
      arith,
      be_value-be_bytes_8 (i64_bits a) (i64_bits_bound a ha),
      be_value-be_bytes_8 (i64_bits b) (i64_bits_bound b hb),
      ap (be_value 0) e,
    ))
