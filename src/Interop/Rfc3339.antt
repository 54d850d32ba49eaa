-- ===== src/Interop/Rfc3339.antt =====
-- crates/aion-trust-interop/src/rfc3339.rs: times as RFC 3339 texts. `decimal` and `parse_i64` are the
-- formatting and the parsing of an `i64` by the Rust library.
pub mod Civil
pub mod Decimal
pub mod RoundTrip
use aion_trust.Prelude.{
  ℕ, zero, suc, ◌+◌, ◌-◌, ◌*◌, ◌/◌, ◌%◌, ◌^◌, Bool, true, false, ◌&&◌, Option, none, some, [], ◌∷◌,
  ◌++◌, ltb, leb, ◌==◌, if◌then◌else◌, length, get_or, take, drop, replicate, Text, Result, ok_or,
  guard, ok, ◌>>=◌, ◌>>◌,
}
use aion_trust.Prelude.Int.{
  ℤ, sub_ℕ, sub_ℕ, leb_ℤ, leb_ℤ, ◌+ℤ◌, ◌+ℤ◌, ◌-ℤ◌, ◌-ℤ◌, ◌*ℤ◌, ◌*ℤ◌, quot, quot, div_euclid,
  div_euclid, rem_euclid, rem_euclid, rem, rem, pos, negsuc,
}
use aion_trust.Identity.{Timestamp}
use aion_trust.Interop.Error.{InteropError, rfc3339}

abbrev pub secs_per_day : ℕ
secs_per_day = 86400

-- The dividend of the era: `if z >= 0 { z } else { z - 146_096 }`.
unfoldable pub era_of_days : ℤ → ℤ
era_of_days z = quot (if leb_ℤ (pos 0) z then z else z -ℤ pos 146096) 146097

unfoldable pub year_of_era : ℤ → ℤ
year_of_era doe = quot (doe -ℤ quot doe 1460 +ℤ quot doe 36524 -ℤ quot doe 146096) 365

unfoldable pub day_of_year : ℤ → ℤ → ℤ
day_of_year doe yoe = doe -ℤ (yoe *ℤ 365 +ℤ quot yoe 4 -ℤ quot yoe 100)

-- The end of `civil_from_days`, of the year from March on and the day in it.
unfoldable pub month_and_day : ℤ → ℤ → ℤ × ℤ × ℤ
month_and_day y doy =
    let mp = quot (doy *ℤ 5 +ℤ pos 2) 153 in
    let d = doy -ℤ quot (mp *ℤ 153 +ℤ pos 2) 5 +ℤ pos 1 in
    let m = if leb_ℤ (pos 10) mp then mp -ℤ pos 9 else mp +ℤ pos 3 in
    (if leb_ℤ m (pos 2) then y +ℤ pos 1 else y, m, d)

unfoldable pub civil_from_days : ℤ → ℤ × ℤ × ℤ
unfolding era_of_days year_of_era day_of_year month_and_day
civil_from_days days =
    let z = days +ℤ pos 719468 in
    let era = era_of_days z in
    let doe = z -ℤ era *ℤ 146097 in
    let yoe = year_of_era doe in month_and_day (yoe +ℤ era *ℤ 400) (day_of_year doe yoe)

unfoldable pub era_of_year : ℤ → ℤ
era_of_year y = quot (if leb_ℤ (pos 0) y then y else y -ℤ pos 399) 400

-- The day of the year from March on.
unfoldable pub ordinal : ℤ → ℤ → ℤ
ordinal m d =
    let mp = if leb_ℤ m (pos 2) then m +ℤ pos 9 else m -ℤ pos 3 in
    quot (mp *ℤ 153 +ℤ pos 2) 5 +ℤ d -ℤ pos 1

unfoldable pub days_from_civil : ℤ → ℤ → ℤ → ℤ
unfolding era_of_year ordinal
days_from_civil year m d =
    let y = if leb_ℤ m (pos 2) then year -ℤ pos 1 else year in
    let era = era_of_year y in
    let yoe = y -ℤ era *ℤ 400 in
    let doe = yoe *ℤ 365 +ℤ quot yoe 4 -ℤ quot yoe 100 +ℤ ordinal m d in
    era *ℤ 146097 +ℤ doe -ℤ pos 719468

-- The decimal digits of a number. The fuel is more than the number, which loses a digit each round.
unfoldable pub decimal_fuel : ℕ → ℕ → Text
decimal_fuel zero n = []
decimal_fuel (suc fuel) n =
    let rest = decimal_fuel fuel (n / 10) in
    if ltb n 10 then (48 + n) ∷ [] else rest ++ (48 + n % 10) ∷ []

unfoldable pub decimal : ℕ → Text
unfolding decimal_fuel
decimal n = decimal_fuel (suc n) n

-- `{:0width}`: the sign, then zeros up to the width, then the digits.
unfoldable pub padded : ℕ → ℤ → Text
unfolding decimal replicate
padded width (pos n) = let digits = decimal n in replicate (width - length digits) 48 ++ digits
padded width (negsuc n) =
    let digits = decimal (suc n) in 45 ∷ (replicate (width - 1 - length digits) 48 ++ digits)

-- The text of a date and of a time of day.
unfoldable pub format : ℤ × ℤ × ℤ → ℤ → Text
unfolding padded
format (y, m, d) sod =
    padded 4 y
    ++ (45 ∷ padded 2 m
        ++ (45 ∷ padded 2 d
            ++ (84 ∷ padded 2 (quot sod 3600)
                ++ (58 ∷ padded 2 (quot (rem sod 3600) 60)
                    ++ (58 ∷ padded 2 (rem sod 60) ++ (90 ∷ []))))))

unfoldable pub to_rfc3339 : Timestamp → Text
unfolding civil_from_days format
to_rfc3339 ts = format (civil_from_days (div_euclid ts secs_per_day)) (rem_euclid ts secs_per_day)

unfoldable pub parse_digits : ℕ → Text → Option ℕ
parse_digits n [] = some n
parse_digits n (b ∷ bs) =
    let rest = parse_digits (n * 10 + (b - 48)) bs in if leb 48 b && leb b 57 then rest else none

unfoldable pub parse_unsigned : Text → Option ℕ
unfolding parse_digits
parse_unsigned [] = none
parse_unsigned (b ∷ bs) = parse_digits 0 (b ∷ bs)

-- A parsed magnitude under a bound, with its sign.
unfoldable pub within_i64 : Bool → Option ℕ → Option ℤ
within_i64 negative none = none
within_i64 true (some n) = if leb n (2 ^ 63) then some (sub_ℕ 0 n) else none
within_i64 false (some n) = if ltb n (2 ^ 63) then some (pos n) else none

-- `str::parse::<i64>`: one sign at most, then at least one digit.
unfoldable pub parse_i64 : Text → Option ℤ
unfolding parse_unsigned within_i64
parse_i64 [] = none
parse_i64 (b ∷ bs) =
    if b == 45
    then within_i64 true (parse_unsigned bs)
    else if b == 43
    then within_i64 false (parse_unsigned bs)
    else within_i64 false (parse_unsigned (b ∷ bs))

unfoldable pub num : Text → Result InteropError ℤ
unfolding parse_i64
num s = ok_or (parse_i64 s) rfc3339

-- `&s[i..k]`, in range and at character boundaries: its neighbours here are the ends or ASCII.
unfoldable pub slice : ℕ → ℕ → Text → Text
slice i k s = take (k - i) (drop i s)

-- The shape `....-..-..T..:..:..Z`.
unfoldable pub has_shape : Text → Bool
has_shape b =
    (length b == 20)
    && (get_or b 4 0 == 45)
    && (get_or b 7 0 == 45)
    && (get_or b 10 0 == 84)
    && (get_or b 13 0 == 58)
    && (get_or b 16 0 == 58)
    && (get_or b 19 0 == 90)

unfoldable pub from_rfc3339 : Text → Result InteropError Timestamp
unfolding has_shape num slice days_from_civil
from_rfc3339 s = do
  guard (has_shape s) rfc3339
  y ← num (slice 0 4 s)
  mo ← num (slice 5 7 s)
  d ← num (slice 8 10 s)
  hh ← num (slice 11 13 s)
  mm ← num (slice 14 16 s)
  ss ← num (slice 17 19 s)
  guard
      (leb_ℤ (pos 1) mo
        && leb_ℤ mo (pos 12)
        && (leb_ℤ (pos 1) d && leb_ℤ d (pos 31))
        && leb_ℤ hh (pos 23)
        && leb_ℤ mm (pos 59)
        && leb_ℤ ss (pos 59))
      rfc3339
  ok (days_from_civil y mo d *ℤ secs_per_day +ℤ hh *ℤ 3600 +ℤ mm *ℤ 60 +ℤ ss)
