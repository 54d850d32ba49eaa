-- ===== src/Tests/Interop.antt =====
-- Times, base58 and keys in their exchange forms, on values of the source's own tests.
use aion_trust.Prelude.{ℕ, ◌≤◌, ◌≡◌, refl, true, [], ◌∷◌, arith, Bytes, codes, ok}
use aion_trust.Prelude.Int.{ℤ, div_euclid, div_euclid, pos, negsuc}
use aion_trust.Crypto.Toy.{toy, toy_laws}
use aion_trust.Interop.Rfc3339.{
  secs_per_day, civil_from_days, days_from_civil, to_rfc3339, from_rfc3339,
}
use aion_trust.Interop.Rfc3339.Civil.{days_from_civil-civil_from_days}
use aion_trust.Interop.Rfc3339.RoundTrip.{from_rfc3339-to_rfc3339}
use aion_trust.Interop.DidKey.{
  base58btc_encode, base58btc_decode, encode_did_key, verification_method, decode_did_key,
}
use aion_trust.Interop.DidKey.Base58.{base58btc_decode-base58btc_encode}
use aion_trust.Interop.DidKey.RoundTrip.{decode_did_key-encode_did_key}

-- A leap day.
leap_test : to_rfc3339 (pos 951782400) ≡ codes "2000-02-29T00:00:00Z"
unfolding to_rfc3339
leap_test = refl

before_epoch_test : to_rfc3339 (negsuc 0) ≡ codes "1969-12-31T23:59:59Z"
unfolding to_rfc3339
before_epoch_test = refl

-- A signed hour is read.
signed_hour_test : from_rfc3339 (codes "1970-01-01T-1:00:00Z") ≡ ok (negsuc 3599)
unfolding from_rfc3339
signed_hour_test = refl

hello_test : base58btc_encode (codes "Hello World!") ≡ codes "2NEpo7TZRRrLZSi2U"
unfolding base58btc_encode
hello_test = refl

year_test : (civil_from_days (div_euclid (pos 951782400) secs_per_day)).0 ≡ pos 2000
unfolding civil_from_days
year_test = refl

from_rfc3339-to_rfc3339_example : from_rfc3339 (to_rfc3339 (pos 951782400)) ≡ ok (pos 951782400)
from_rfc3339-to_rfc3339_example =
    from_rfc3339-to_rfc3339 (pos 951782400) 2000 year_test (omega arith)

-- The first day of the year 0.
days_from_civil-civil_from_days_example :
    (year : ℤ) × (m d : ℕ) × (civil_from_days (negsuc 719527) ≡ (year, pos m, pos d))
    × (1 ≤ m)
    × (m ≤ 12)
    × (1 ≤ d)
    × (d ≤ 31)
    × (days_from_civil year (pos m) (pos d) ≡ negsuc 719527)
days_from_civil-civil_from_days_example = days_from_civil-civil_from_days (negsuc 719527)

abbrev bytes : Bytes
bytes = 0 ∷ 0 ∷ 255 ∷ 0 ∷ 7 ∷ []

base58btc_decode-base58btc_encode_example : base58btc_decode (base58btc_encode bytes) ≡ ok bytes
base58btc_decode-base58btc_encode_example =
    base58btc_decode-base58btc_encode bytes
      (omega arith, (omega arith, (omega arith, (omega arith, (omega arith, tt)))))

decode_did_key-encode_did_key_example :
    (decode_did_key toy (encode_did_key toy true) ≡ ok true)
    × (decode_did_key toy (verification_method toy true) ≡ ok true)
decode_did_key-encode_did_key_example = decode_did_key-encode_did_key toy toy_laws true
