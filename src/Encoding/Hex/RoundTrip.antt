-- ===== src/Encoding/Hex/RoundTrip.antt =====
-- About the hex codec of crates/aion-trust-core/src/encoding.rs.
use aion_trust.Prelude.{
  ℕ, ◌*◌, ◌/◌, ◌%◌, ◌<◌, ◌≡◌, refl, ap, true, [], ◌∷◌, arith, ◌==◌, ==_iff, length, Bytes, AreBytes,
  ok,
}
use aion_trust.Crypto.{IsArray}
use aion_trust.Encoding.Hex.{hex_digit, to_hex, nib, from_pairs, from_hex, decode_array}

pub length-to_hex : (bs : Bytes) → length (to_hex bs) ≡ 2 * length bs
unfolding to_hex
length-to_hex [] = refl
length-to_hex (b ∷ bs) = omega (arith, length-to_hex bs)

nib-hex_digit : (n : ℕ) → n < 16 → nib (hex_digit n) ≡ ok n
unfolding nib hex_digit
nib-hex_digit n h = ground arith

from_pairs-to_hex : (bs : Bytes) → AreBytes bs → from_pairs (to_hex bs) ≡ ok bs
unfolding from_pairs to_hex
from_pairs-to_hex [] h = refl
from_pairs-to_hex (b ∷ bs) (hb, hbs) =
    rw
      (
        nib-hex_digit (b / 16) (omega arith),
        nib-hex_digit (b % 16) (omega arith),
        from_pairs-to_hex bs hbs,
      )
      (ap (λ (n : ℕ). ok (n ∷ bs)) (omega arith))

-- Decoding the hex text of any bytes, each below 256, gives these bytes.
pub from_hex-to_hex : (bs : Bytes) → AreBytes bs → from_hex (to_hex bs) ≡ ok bs
unfolding from_hex
from_hex-to_hex bs h = rw (even bs, from_pairs-to_hex bs h)
  where
    even : (bs : Bytes) → (length (to_hex bs) % 2 == 0) ≡ true
    even bs = ground (arith, length-to_hex bs)

pub decode_array-to_hex : (n : ℕ) {bs : Bytes} → IsArray n bs → decode_array n (to_hex bs) ≡ ok bs
unfolding decode_array
decode_array-to_hex n {bs} a = rw (from_hex-to_hex bs a.bytes, (==_iff (length bs) n).1 a.len)

-- Two byte strings with one hex text are the same.
pub to_hex-injective : (xs ys : Bytes) → AreBytes xs → AreBytes ys → to_hex xs ≡ to_hex ys → xs ≡ ys
to_hex-injective xs ys ha hb e = cc (from_hex-to_hex xs ha, from_hex-to_hex ys hb, e)
