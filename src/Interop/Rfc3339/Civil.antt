-- ===== src/Interop/Rfc3339/Civil.antt =====
-- About `civil_from_days` and `days_from_civil` of crates/aion-trust-interop/src/rfc3339.rs.
use aion_trust.Prelude.{
  ℕ, ◌+◌, ◌-◌, ◌*◌, ◌/◌, ◌%◌, ◌≤◌, ◌<◌, ◌≡◌, refl, inl, inr, true, false, arith, leb, if◌then◌else◌,
  Bool-cases,
}
use aion_trust.Prelude.Int.{
  ℤ, leb_ℤ, leb_ℤ, ◌+ℤ◌, ◌+ℤ◌, ◌-ℤ◌, ◌-ℤ◌, ◌*ℤ◌, ◌*ℤ◌, quot, quot, pos, negsuc,
}
use aion_trust.Interop.Rfc3339.{
  era_of_days, year_of_era, day_of_year, month_and_day, civil_from_days, era_of_year, ordinal,
  days_from_civil,
}

-- A number of days is its era and a day in it.
era_of_days-split :
    (z : ℤ)
    → (d : ℕ) × (d < 146097)
      × (z -ℤ era_of_days z *ℤ 146097 ≡ pos d)
      × (era_of_days z *ℤ 146097 +ℤ pos d ≡ z)
unfolding era_of_days
era_of_days-split (pos n) = (n % 146097, omega arith, ground arith, ground arith)
era_of_days-split (negsuc n) = (146096 - n % 146097, omega arith, ground arith, ground arith)

-- The year of the era and the day of the year are as expected.
year_and_day :
    (d : ℕ)
    → d < 146097
    → (y t : ℕ) × (year_of_era (pos d) ≡ pos y)
      × (day_of_year (pos d) (pos y) ≡ pos t)
      × (y ≤ 399)
      × (t ≤ 365)
      × (365 * y + y / 4 - y / 100 + t ≡ d)
unfolding year_of_era day_of_year
year_and_day d h =
    let y = (d - d / 1460 + d / 36524 - d / 146096) / 365 in
    let before = 365 * y + y / 4 - y / 100 in
    let low : before ≤ d = omega (arith, h) in
    (
      y,
      d - before,
      ground (arith, h),
      ground (arith, h, low),
      omega (arith, h),
      omega (arith, h),
      omega (arith, low),
    )

-- A year of an era is found again.
era_of_year-found :
    (era : ℤ) (y : ℕ)
    → y ≤ 399
    → (era_of_year (pos y +ℤ era *ℤ 400) ≡ era) × ((pos y +ℤ era *ℤ 400) -ℤ era *ℤ 400 ≡ pos y)
unfolding era_of_year
era_of_year-found (pos k) y h = (ground (arith, h), ground (arith, h))
era_of_year-found (negsuc k) y h = (ground (arith, h), ground (arith, h))

add_sub_one : (y : ℤ) → (y +ℤ pos 1) -ℤ pos 1 ≡ y
add_sub_one (pos n) = ground arith
add_sub_one (negsuc n) = ground arith

-- The month of a place from March on, and the way back.
month_of_late :
    (n : ℕ)
    → leb 10 n ≡ true
    → ((if leb_ℤ (pos 10) (pos n) then pos n -ℤ pos 9 else pos n +ℤ pos 3) ≡ pos (n - 9))
      × (pos (n - 9) +ℤ pos 9 ≡ pos n)
      × (10 ≤ n)
month_of_late n h = (ground (arith, h), ground (arith, h), ground (arith, h))

january_or_february : (n : ℕ) → n ≤ 11 → leb_ℤ (pos (n - 9)) (pos 2) ≡ true
january_or_february n h = ground (arith, h)

month_of_early :
    (n : ℕ)
    → leb 10 n ≡ false
    → ((if leb_ℤ (pos 10) (pos n) then pos n -ℤ pos 9 else pos n +ℤ pos 3) ≡ pos (n + 3))
      × (pos (n + 3) -ℤ pos 3 ≡ pos n)
      × (n ≤ 9)
month_of_early n h = (ground (arith, h), ground arith, ground (arith, h))

march_or_later : (n : ℕ) → leb_ℤ (pos (n + 3)) (pos 2) ≡ false
march_or_later n = ground arith

day_of_era :
    (y t d : ℕ)
    → 365 * y + y / 4 - y / 100 + t ≡ d
    → pos y *ℤ 365 +ℤ quot (pos y) 4 -ℤ quot (pos y) 100 +ℤ pos t ≡ pos d
day_of_era y t d h = ground (arith, h)

-- The date of a day of the year, and the way back.
month_and_day-found :
    (y : ℤ) (t : ℕ)
    → t ≤ 365
    → (year : ℤ) × (m d : ℕ) × (month_and_day y (pos t) ≡ (year, pos m, pos d))
      × (1 ≤ m)
      × (m ≤ 12)
      × (1 ≤ d)
      × (d ≤ 31)
      × ((if leb_ℤ (pos m) (pos 2) then year -ℤ pos 1 else year) ≡ y)
      × (ordinal (pos m) (pos d) ≡ pos t)
unfolding month_and_day ordinal
month_and_day-found y t h =
    let mp = (5 * t + 2) / 153 in
    let d = t - (153 * mp + 2) / 5 + 1 in
    let within : (153 * mp + 2) / 5 ≤ t = omega arith in
    let month_same : quot (pos t *ℤ 5 +ℤ pos 2) 153 ≡ pos mp = ground arith in
    let day_same : pos t -ℤ quot (pos mp *ℤ 153 +ℤ pos 2) 5 +ℤ pos 1 ≡ pos d =
      ground (arith, within) in
    let back : quot (pos mp *ℤ 153 +ℤ pos 2) 5 +ℤ pos d -ℤ pos 1 ≡ pos t = ground (arith, within) in
    elim (Bool-cases (leb 10 mp)) [
      | inl late ↦
          let (m_same, mp_back, ten) = month_of_late mp late in
          let march = january_or_february mp (omega (arith, h)) in
          (
            y +ℤ pos 1,
            mp - 9,
            d,
            rw (month_same, day_same, m_same, march) refl,
            omega (arith, ten),
            omega (arith, h),
            omega arith,
            omega (arith, h),
            rw march (add_sub_one y),
            rw (march, mp_back) back,
          )
      | inr early ↦
          let (m_same, mp_back, nine) = month_of_early mp early in
          let march = march_or_later mp in
          (
            y,
            mp + 3,
            d,
            rw (month_same, day_same, m_same, march) refl,
            omega arith,
            omega (arith, nine),
            omega arith,
            omega (arith, h),
            rw march refl,
            rw (march, mp_back) back,
          )
    ]

sub_add : (z : ℤ) (k : ℕ) → z +ℤ pos k -ℤ pos k ≡ z
sub_add (pos n) k = ground arith
sub_add (negsuc n) k = ground arith

-- The day number of the date of a day is that day, for all days, those before the year 0 included;
-- and the date has a month from 1 to 12 and a day from 1 to 31.
pub days_from_civil-civil_from_days :
    (z : ℤ)
    → (year : ℤ) × (m d : ℕ) × (civil_from_days z ≡ (year, pos m, pos d))
      × (1 ≤ m)
      × (m ≤ 12)
      × (1 ≤ d)
      × (d ≤ 31)
      × (days_from_civil year (pos m) (pos d) ≡ z)
unfolding civil_from_days days_from_civil
days_from_civil-civil_from_days z =
    let shifted = z +ℤ pos 719468 in
    let era = era_of_days shifted in
    let (doe, doe_small, doe_same, together) = era_of_days-split shifted in
    let (y, t, y_same, t_same, y_small, t_small, doe_parts) = year_and_day doe doe_small in
    let (era_same, y_back) = era_of_year-found era y y_small in
    let (year, m, d, found, m1, m12, d1, d31, year_back, ordinal_back) =
      month_and_day-found (pos y +ℤ era *ℤ 400) t t_small in
    let doe_back = day_of_era y t doe doe_parts in
    (
      year,
      m,
      d,
      rw (doe_same, y_same, t_same) found,
      m1,
      m12,
      d1,
      d31,
      rw (year_back, era_same, y_back, ordinal_back, doe_back, together) (sub_add z 719468),
    )
