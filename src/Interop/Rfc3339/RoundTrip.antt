-- ===== src/Interop/Rfc3339/RoundTrip.antt =====
-- About `from_rfc3339` and `to_rfc3339` of crates/aion-trust-interop/src/rfc3339.rs, together.
use aion_trust.Prelude.{
  ℕ, ◌+◌, ◌-◌, ◌/◌, ◌%◌, ◌≤◌, ◌<◌, ◌≡◌, refl, sym, ap, ap₂, ◌∙◌, true, ◌&&◌, [], ◌∷◌, arith, Text,
  ok,
}
use aion_trust.Prelude.Int.{
  ℤ, leb_ℤ, leb_ℤ, ◌+ℤ◌, ◌+ℤ◌, ◌*ℤ◌, ◌*ℤ◌, div_euclid, div_euclid, rem_euclid, rem_euclid, pos,
  negsuc,
}
use aion_trust.Identity.{Timestamp}
use aion_trust.Interop.Rfc3339.{
  secs_per_day, civil_from_days, days_from_civil, format, to_rfc3339, slice, has_shape,
  from_rfc3339,
}
use aion_trust.Interop.Rfc3339.Civil.{days_from_civil-civil_from_days}
use aion_trust.Interop.Rfc3339.Decimal.{padded_two, padded_four, num_two, num_four}

-- The text of a date of four digits and a time of day, as bytes.
abbrev written : ℕ → ℕ → ℕ → ℕ → ℕ → ℕ → Text
written y m d hh mm ss =
    (48 + y / 1000)
    ∷ (48 + y / 100 % 10)
    ∷ (48 + y / 10 % 10)
    ∷ (48 + y % 10)
    ∷ 45
    ∷ (48 + m / 10)
    ∷ (48 + m % 10)
    ∷ 45
    ∷ (48 + d / 10)
    ∷ (48 + d % 10)
    ∷ 84
    ∷ (48 + hh / 10)
    ∷ (48 + hh % 10)
    ∷ 58
    ∷ (48 + mm / 10)
    ∷ (48 + mm % 10)
    ∷ 58
    ∷ (48 + ss / 10)
    ∷ (48 + ss % 10)
    ∷ 90
    ∷ []

format-written :
    (y m d sod : ℕ)
    → y < 10000
    → m < 100
    → d < 100
    → sod < 86400
    → format (pos y, pos m, pos d) (pos sod)
      ≡ written y m d (sod / 3600) (sod % 3600 / 60) (sod % 60)
unfolding format
format-written y m d sod hy hm hd hs =
    rw
      (
        padded_four y hy,
        padded_two m hm,
        padded_two d hd,
        padded_two (sod / 3600) (omega (arith, hs)),
        padded_two (sod % 3600 / 60) (omega arith),
        padded_two (sod % 60) (omega arith),
      )
      refl

from_rfc3339-written :
    (y m d hh mm ss : ℕ)
    → y < 10000
    → 1 ≤ m
    → m ≤ 12
    → 1 ≤ d
    → d ≤ 31
    → hh ≤ 23
    → mm ≤ 59
    → ss ≤ 59
    → from_rfc3339 (written y m d hh mm ss)
      ≡ ok (
          days_from_civil (pos y) (pos m) (pos d) *ℤ secs_per_day
          +ℤ pos hh *ℤ 3600
          +ℤ pos mm *ℤ 60
          +ℤ pos ss)
unfolding from_rfc3339 has_shape slice
from_rfc3339-written y m d hh mm ss hy m1 m12 d1 d31 hh23 mm59 ss59 =
    let valid : (leb_ℤ (pos 1) (pos m)
          && leb_ℤ (pos m) (pos 12)
          && (leb_ℤ (pos 1) (pos d) && leb_ℤ (pos d) (pos 31))
          && leb_ℤ (pos hh) (pos 23)
          && leb_ℤ (pos mm) (pos 59)
          && leb_ℤ (pos ss) (pos 59))
        ≡ true =
      ground (arith, m1, m12, d1, d31, hh23, mm59, ss59) in
    rw
      (
        num_four y hy,
        num_two m (omega (arith, m12)),
        num_two d (omega (arith, d31)),
        num_two hh (omega (arith, hh23)),
        num_two mm (omega (arith, mm59)),
        num_two ss (omega (arith, ss59)),
        valid,
      )
      refl

-- A time is its day and its second of the day, which is its hours, minutes and seconds.
split_time :
    (ts : ℤ)
    → (sod : ℕ) × (sod < 86400)
      × (rem_euclid ts secs_per_day ≡ pos sod)
      × (div_euclid ts secs_per_day *ℤ secs_per_day
            +ℤ pos (sod / 3600) *ℤ 3600
            +ℤ pos (sod % 3600 / 60) *ℤ 60
            +ℤ pos (sod % 60)
          ≡ ts)
split_time (pos n) = (n % 86400, omega arith, refl, ground arith)
split_time (negsuc n) = (86400 - 1 - n % 86400, omega arith, refl, ground arith)

-- Reading what was written gives the time back, for every time in the years 0 to 9999.
pub from_rfc3339-to_rfc3339 :
    (ts : Timestamp) (y : ℕ)
    → (civil_from_days (div_euclid ts secs_per_day)).0 ≡ pos y
    → y ≤ 9999
    → from_rfc3339 (to_rfc3339 ts) ≡ ok ts
unfolding to_rfc3339
from_rfc3339-to_rfc3339 ts y year_is small =
    let (sod, sod_small, sod_same, together) = split_time ts in
    let (year, m, d, date, m1, m12, d1, d31, back) =
      days_from_civil-civil_from_days (div_euclid ts secs_per_day) in
    let year_same : year ≡ pos y = sym (ap (λ (p : ℤ × ℤ × ℤ). p.0) date) ∙ year_is in
    let date_same = date ∙ ap (λ x. (x, pos m, pos d)) year_same in
    let back_same = ap (λ x. days_from_civil x (pos m) (pos d)) (sym year_same) ∙ back in
    let text_same =
      ap₂ format date_same sod_same
      ∙ format-written y m d sod (omega (arith, small)) (omega (arith, m12)) (omega (arith, d31))
          sod_small in
    let read =
      from_rfc3339-written y m d (sod / 3600) (sod % 3600 / 60) (sod % 60) (omega (arith, small)) m1
        m12 d1 d31 (omega (arith, sod_small)) (omega arith) (omega arith) in
    let same_day =
      ap
        (λ x.
          x *ℤ secs_per_day
          +ℤ pos (sod / 3600) *ℤ 3600
          +ℤ pos (sod % 3600 / 60) *ℤ 60
          +ℤ pos (sod % 60))
        back_same in
    ap from_rfc3339 text_same ∙ read ∙ ap ok (same_day ∙ together)
