-- ===== src/Crypto/Toy.antt =====
-- A small concrete instance of the interface, so that tests can run: a hash that sums, two keys.
-- It is no cryptography; it only shows that the laws of the interface can hold.
use aion_trust.Prelude.{
  ℕ, zero, suc, ◌+◌, ◌*◌, ◌%◌, ◌<◌, ◌≡◌, refl, Bool, true, false, Option, none, some, [], ◌∷◌,
  arith, if◌then◌else◌, replicate, length-replicate, Bytes, AreBytes, bytes_eq, bytes_eq_refl,
}
use aion_trust.Crypto.{Crypto, CryptoLaws, IsArray}

unfoldable pub mix : ℕ → Bytes → ℕ
mix a [] = a
mix a (b ∷ bs) = mix ((a * 31 + b + 7) % 251) bs

unfoldable pub key_byte : Bool → ℕ
key_byte true = 1
key_byte false = 2

abbrev pub key_array : Bool → Bytes
key_array k = replicate 32 (key_byte k)

unfoldable pub key_of : Bytes → Option Bool
unfolding bytes_eq key_byte
key_of bs =
    if bytes_eq bs (key_array true)
    then some true
    else if bytes_eq bs (key_array false)
    then some false
    else none

mix_bound : (a : ℕ) (bs : Bytes) → a < 256 → mix a bs < 256
unfolding mix
mix_bound a [] h = h
mix_bound a (b ∷ bs) h = mix_bound ((a * 31 + b + 7) % 251) bs (omega arith)

All-replicate : (n a : ℕ) → a < 256 → AreBytes (replicate n a)
unfolding replicate
All-replicate zero a h = tt
All-replicate (suc n) a h = (h, All-replicate n a h)

pub replicate-IsArray : (n a : ℕ) → a < 256 → IsArray n (replicate n a)
replicate-IsArray n a h = record { len = length-replicate n a; bytes = All-replicate n a h }

abbrev pub toy_sign : Bool → Bytes → Bytes
toy_sign k m = replicate 64 (mix (key_byte k) m)

abbrev pub toy : Crypto
toy = record {
  SigningKey = Bool;
  VerifyingKey = Bool;
  hash = λ m. replicate 32 (mix 0 m);
  keyed_hash = λ k m. replicate 32 (mix (mix 0 k) m);
  signing_key_from_bytes = key_of;
  signing_key_to_bytes = λ k. key_array k;
  verifying_key = λ k. k;
  sign = toy_sign;
  key_from_bytes = key_of;
  key_to_bytes = λ k. key_array k;
  verify = λ k m s. bytes_eq s (toy_sign k m);
}

pub key_byte_bound : (k : Bool) → key_byte k < 256
unfolding key_byte
key_byte_bound true = omega arith
key_byte_bound false = omega arith

pub key_of-array : (k : Bool) → key_of (key_array k) ≡ some k
unfolding key_of replicate
key_of-array true = refl
key_of-array false = refl

pub toy_laws : CryptoLaws toy
toy_laws = record {
  hash-IsArray = λ m. replicate-IsArray 32 _ (mix_bound 0 m (omega arith));
  keyed_hash-IsArray = λ k m. replicate-IsArray 32 _ (mix_bound _ m (mix_bound 0 k (omega arith)));
  sign-IsArray = λ k m. replicate-IsArray 64 _ (mix_bound _ m (key_byte_bound k));
  key_to_bytes-IsArray = λ k. replicate-IsArray 32 _ (key_byte_bound k);
  key_from_to_bytes = key_of-array;
  verify-sign = λ k m. bytes_eq_refl (toy_sign k m);
}
