-- ===== src/Encoding/Hex.antt =====
-- `to_hex`, `from_hex` and `decode_array` of crates/aion-trust-core/src/encoding.rs, and
-- `TrustError` of crates/aion-trust-core/src/error.rs without its messages.
pub mod RoundTrip
use aion_trust.Prelude.{
  ℕ, ◌+◌, ◌-◌, ◌*◌, ◌/◌, ◌%◌, ◌≡◌, refl, ◌&&◌, [], ◌∷◌, ltb, leb, ◌==◌, if◌then◌else◌, length,
  Bytes, Text, codes, Result, guard, ok, err, ◌>>=◌, ◌>>◌,
}

pub data TrustError : Type 0 where
  crypto decode serialize io : TrustError

-- `HEX[n]`, for a nibble `n`.
unfoldable pub hex_digit : ℕ → ℕ
hex_digit n = if ltb n 10 then b'0' + n else b'a' + (n - 10)

-- `to_hex`: the high nibble `b >> 4`, then the low nibble `b & 0x0f`.
unfoldable pub to_hex : Bytes → Text
unfolding hex_digit
to_hex [] = []
to_hex (b ∷ bs) = hex_digit (b / 16) ∷ hex_digit (b % 16) ∷ to_hex bs

-- The closure `nib` of `from_hex`.
unfoldable pub nib : ℕ → Result TrustError ℕ
nib c =
    if leb b'0' c && leb c b'9'
    then ok (c - b'0')
    else if leb b'a' c && leb c b'f'
    then ok (c - b'a' + 10)
    else if leb b'A' c && leb c b'F'
    then ok (c - b'A' + 10)
    else err decode

-- The loop of `from_hex` over `chunks_exact(2)`, which passes over an odd last byte.
unfoldable pub from_pairs : Text → Result TrustError Bytes
unfolding nib
from_pairs [] = ok []
from_pairs (c ∷ []) = ok []
from_pairs (hi ∷ lo ∷ rest) = do
  h ← nib hi
  l ← nib lo
  out ← from_pairs rest
  ok ((h * 16 + l) ∷ out)

unfoldable pub from_hex : Text → Result TrustError Bytes
unfolding from_pairs
from_hex s = do guard (length s % 2 == 0) decode; from_pairs s

-- `decode_array::<n>`: a hex string into an array of n bytes.
unfoldable pub decode_array : ℕ → Text → Result TrustError Bytes
unfolding from_hex
decode_array n s = do v ← from_hex s; guard (length v == n) decode; ok v

known_vector : to_hex (0x00 ∷ 0xff ∷ 0xab ∷ 0x10 ∷ []) ≡ codes "00ffab10"
unfolding to_hex
known_vector = refl

both_cases : from_hex (codes "aFFF") ≡ ok (0xaf ∷ 0xff ∷ [])
unfolding from_hex
both_cases = refl

rejects_bad_input : (from_hex (codes "abc") ≡ err decode) × (from_hex (codes "0g") ≡ err decode)
unfolding from_hex
rejects_bad_input = (refl, refl)
