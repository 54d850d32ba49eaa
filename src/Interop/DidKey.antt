-- ===== src/Interop/DidKey.antt =====
-- crates/aion-trust-interop/src/didkey.rs: an Ed25519 key as a `did:key`, in base58btc.
pub mod Radix
pub mod Base58
pub mod RoundTrip
use aion_trust.Prelude.{
  ℕ, zero, suc, ◌+◌, ◌*◌, ◌/◌, ◌%◌, ◌&&◌, Option, none, some, List, [], ◌∷◌, ◌++◌, map, reverse,
  ◌==◌, if◌then◌else◌, length, get_or, take, drop, replicate, Bytes, Text, codes, bytes_eq, Result,
  ok_or, guard, ok, ◌>>=◌, ◌>>◌,
}
use aion_trust.Crypto.{Crypto}
use aion_trust.Interop.Error.{InteropError, did_key}

-- `ed25519-pub`
abbrev pub ed25519_multicodec : Bytes
ed25519_multicodec = 237 ∷ 1 ∷ []

abbrev pub alphabet : Bytes
alphabet = codes "123456789ABCDEFGHJKLMNPQRSTUVWXYZabcdefghijkmnopqrstuvwxyz"

-- `take_while(|&&b| b == x).count()`.
unfoldable pub leading : ℕ → Bytes → ℕ
leading x [] = 0
leading x (b ∷ bs) = if b == x then suc (leading x bs) else 0

-- The loop `while carry > 0` that pushes digits; the fuel is more than the carry, which shrinks.
unfoldable pub push_carry : ℕ → ℕ → ℕ → List ℕ
push_carry base zero carry = []
push_carry base (suc fuel) carry =
    let rest = push_carry base fuel (carry / base) in if carry == 0 then [] else carry % base ∷ rest

-- One round of the loops of `base58btc_encode` and `base58btc_decode`: the digits in `base`, least
-- first, times `mult`, plus the carry.
unfoldable pub absorb : ℕ → ℕ → ℕ → List ℕ → List ℕ
unfolding push_carry
absorb mult base carry [] = push_carry base (suc carry) carry
absorb mult base carry (d ∷ ds) =
    (carry + d * mult) % base ∷ absorb mult base ((carry + d * mult) / base) ds

-- The loop over the bytes of the input.
unfoldable pub absorb_all : ℕ → ℕ → List ℕ → List ℕ → List ℕ
unfolding absorb
absorb_all mult base digits [] = digits
absorb_all mult base digits (x ∷ xs) = absorb_all mult base (absorb mult base x digits) xs

unfoldable pub base58btc_encode : Bytes → Text
unfolding leading absorb_all replicate
base58btc_encode input =
    replicate (leading 0 input) 49
    ++ map (λ d. get_or alphabet d 0) (reverse (absorb_all 256 58 [] input))

-- `ALPHABET.iter().position(|&a| a == c)`, from position `i` on.
unfoldable pub index_from : ℕ → ℕ → List ℕ → Option ℕ
index_from i x [] = none
index_from i x (a ∷ rest_of) =
    let rest = index_from (suc i) x rest_of in if a == x then some i else rest

-- The values of the characters, of which the first unknown one is an error.
unfoldable pub base58_values : Text → Result InteropError (List ℕ)
unfolding index_from
base58_values [] = ok []
base58_values (x ∷ xs) = do
  val ← ok_or (index_from 0 x alphabet) did_key
  vals ← base58_values xs
  ok (val ∷ vals)

unfoldable pub base58btc_decode : Text → Result InteropError Bytes
unfolding leading base58_values absorb_all replicate
base58btc_decode s = do
  vals ← base58_values s
  ok (replicate (leading 49 s) 0 ++ reverse (absorb_all 58 256 [] vals))

-- `split('#').next()`.
unfoldable pub before_hash : Text → Text
before_hash [] = []
before_hash (b ∷ bs) = let rest = before_hash bs in if b == 35 then [] else b ∷ rest

unfoldable pub strip_prefix : Text → Text → Option Text
strip_prefix [] s = some s
strip_prefix (p ∷ ps) [] = none
strip_prefix (p ∷ ps) (b ∷ bs) = let rest = strip_prefix ps bs in if b == p then rest else none

module _ (c : Crypto) where
  unfoldable pub encode_did_key : c.VerifyingKey → Text
  unfolding base58btc_encode
  encode_did_key vk =
      codes "did:key:z" ++ base58btc_encode (ed25519_multicodec ++ c.key_to_bytes vk)

  unfoldable pub verification_method : c.VerifyingKey → Text
  unfolding encode_did_key strip_prefix
  verification_method vk =
      let d = encode_did_key vk in
      d ++ (35 ∷ elim (strip_prefix (codes "did:key:") d) [ none ↦ d | some frag ↦ frag ])

  unfoldable pub decode_did_key : Text → Result InteropError c.VerifyingKey
  unfolding before_hash strip_prefix base58btc_decode bytes_eq
  decode_did_key s = do
    mb ← ok_or (strip_prefix (codes "did:key:z") (before_hash s)) did_key
    bytes ← base58btc_decode mb
    guard (length bytes == 34 && bytes_eq (take 2 bytes) ed25519_multicodec) did_key
    ok_or (c.key_from_bytes (drop 2 bytes)) did_key
