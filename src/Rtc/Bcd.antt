-- ===== src/Rtc/Bcd.antt =====
-- The decoding of the registers in kernel/drivers/rtc.c.
use toast_os.Prelude.{
  ℕ, ◌+◌, ◌*◌, ◌/◌, ◌%◌, ◌<◌, ◌≡◌, refl, Bool, true, false, if◌then◌else◌, ◌==◌, arith, ◌&&◌,
  ==_iff, bit_and,
}
use toast_os.Prelude.Bits.{all_below, test-all_below}
use toast_os.Rtc.{RtcTime, decode, from_bcd, hour_from_bcd}

-- A number below 100 as two decimal digits.
abbrev pub to_bcd : ℕ → ℕ
to_bcd v = v / 10 * 16 + v % 10

from_bcd-to_bcd : (v : ℕ) → v < 100 → from_bcd (to_bcd v) ≡ v
unfolding all_below
from_bcd-to_bcd v small =
    (==_iff (from_bcd (to_bcd v)) v).0
      (test-all_below (λ x. from_bcd (to_bcd x) == x) 100 checked v small)
  where
    checked : all_below (λ x. from_bcd (to_bcd x) == x) 100 ≡ true
    checked = refl

-- The hour of a 24-hour clock, and of a 12-hour clock before and after noon.
hour_24 : (h : ℕ) → h < 24 → hour_from_bcd (to_bcd h) ≡ h
unfolding all_below
hour_24 h small =
    (==_iff (hour_from_bcd (to_bcd h)) h).0
      (test-all_below (λ x. hour_from_bcd (to_bcd x) == x) 24 refl h small)

hour_pm : (h : ℕ) → h < 13 → hour_from_bcd (to_bcd h + 128) ≡ h + 128
unfolding all_below
hour_pm h small =
    (==_iff (hour_from_bcd (to_bcd h + 128)) (h + 128)).0
      (test-all_below (λ x. hour_from_bcd (to_bcd x + 128) == x + 128) 13 refl h small)

low_bits :
    (h : ℕ)
    → h < 24
    → (bit_and h 128 ≡ 0) × (bit_and (h + 128) 128 ≡ 128) × (bit_and (h + 128) 127 ≡ h)
unfolding all_below
low_bits h small =
    let ok : ((bit_and h 128 == 0)
          && ((bit_and (h + 128) 128 == 128) && (bit_and (h + 128) 127 == h)))
        ≡ true =
      test-all_below
        (λ x.
          (bit_and x 128 == 0) && ((bit_and (x + 128) 128 == 128) && (bit_and (x + 128) 127 == x)))
        24 refl h small in
    (ground (arith, ok), ground (arith, ok), ground (arith, ok))

-- The registers for a date of this century, with the hour's register given.
abbrev pub registers : RtcTime → (hour : ℕ) → RtcTime
registers t hour = record {
  second = to_bcd t.second;
  minute = to_bcd t.minute;
  hour = hour;
  day = to_bcd t.day;
  month = to_bcd t.month;
  year = to_bcd t.year;
}

-- The fields of `t` can stand in two decimal digits, the hour apart.
pub record TwoDigits (t : RtcTime) : Type 0 where
  pub second_small : t.second < 100
  pub minute_small : t.minute < 100
  pub day_small : t.day < 100
  pub month_small : t.month < 100
  pub year_small : t.year < 100

-- From decimal registers of two digits and a 24-hour clock rtc_read reads the time they stand for,
-- the year counted from 2000.
pub decode_24 :
    (t : RtcTime)
    → TwoDigits t
    → t.hour < 24
    → decode (registers t (to_bcd t.hour)) 2 ≡ record t { year = t.year + 2000 }
unfolding decode
decode_24 t v h =
    rw
      (
        from_bcd-to_bcd t.second v.second_small,
        from_bcd-to_bcd t.minute v.minute_small,
        hour_24 t.hour h,
        from_bcd-to_bcd t.day v.day_small,
        from_bcd-to_bcd t.month v.month_small,
        from_bcd-to_bcd t.year v.year_small,
      )
      refl

-- From decimal registers of two digits and a 12-hour clock the hours before noon are read as they
-- stand, and those after noon as 12 more, modulo 24: twelve at noon comes out as 0, and twelve at
-- midnight as 12.
pub decode_12 :
    (t : RtcTime) (pm : Bool)
    → TwoDigits t
    → t.hour < 13
    → decode (registers t (to_bcd t.hour + (if pm then 128 else 0))) 0 ≡ record t {
      hour = if pm then (if t.hour == 12 then 0 else t.hour + 12) else t.hour;
      year = t.year + 2000;
    }
unfolding decode
decode_12 t true v h =
    let (_, high, low) = low_bits t.hour (omega (arith, h)) in
    let hour : (t.hour + 12) % 24 ≡ (if t.hour == 12 then 0 else t.hour + 12) = ground arith in
    rw
      (
        from_bcd-to_bcd t.second v.second_small,
        from_bcd-to_bcd t.minute v.minute_small,
        hour_pm t.hour h,
        from_bcd-to_bcd t.day v.day_small,
        from_bcd-to_bcd t.month v.month_small,
        from_bcd-to_bcd t.year v.year_small,
        high,
        low,
        hour,
      )
      refl
decode_12 t false v h =
    let (high, _, _) = low_bits t.hour (omega (arith, h)) in
    let same : to_bcd t.hour + 0 ≡ to_bcd t.hour = omega arith in
    rw
      (
        same,
        from_bcd-to_bcd t.second v.second_small,
        from_bcd-to_bcd t.minute v.minute_small,
        hour_24 t.hour (omega (arith, h)),
        from_bcd-to_bcd t.day v.day_small,
        from_bcd-to_bcd t.month v.month_small,
        from_bcd-to_bcd t.year v.year_small,
        high,
      )
      refl
