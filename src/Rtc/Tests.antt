-- ===== src/Rtc/Tests.antt =====
-- The theorems on kernel/drivers/rtc.c at one time of day, and on a chip that shows it.
use toast_os.Prelude.{
  ℕ, ◌+◌, ◌*◌, ◌%◌, ◌≡◌, refl, false, some, Bool-cases, inl, inr, ltb, ◌==◌, if◌then◌else◌, arith,
}
use toast_os.Rtc.{RtcTime, Cmos, decode, read_time, rtc_read, init_rtc, rtc_to_epoch}
use toast_os.Rtc.Bcd.{registers}
use toast_os.Rtc.Calendar.{
  Since1970, days_of_years, days_of_months, days_since_1970, rtc_to_epoch_lem,
}
use toast_os.Rtc.Read.{Ready, Steady, Agreed, rtc_read_settles, init_rtc_lem}

abbrev lunch : RtcTime
lunch = record { second = 5; minute = 59; hour = 12; day = 31; month = 12; year = 25 }

-- 29 February 2024, 12:30:15.
abbrev leap_day : RtcTime
leap_day = record { second = 15; minute = 30; hour = 12; day = 29; month = 2; year = 24 }

abbrev leap_day_2024 : RtcTime
leap_day_2024 = record leap_day { year = 2024 }

leap_day-Since1970 : Since1970 leap_day_2024
leap_day-Since1970 = record {
  year_in = omega arith;
  month_in = omega arith;
  day_in = omega arith;
  time_in = omega arith;
}

days_to_leap_day : days_since_1970 leap_day_2024 ≡ 19782
unfolding days_since_1970 days_of_years days_of_months
days_to_leap_day = refl

rtc_to_epoch_lem_example :
    rtc_to_epoch leap_day_2024 ≡ days_since_1970 leap_day_2024 * 86400 + 12 * 3600 + 30 * 60 + 15
rtc_to_epoch_lem_example = rtc_to_epoch_lem leap_day_2024 leap_day-Since1970

-- A chip that is busy at every other read, and whose seconds move from 14 to 15 at the tenth.
abbrev chip : (before : ℕ) → Cmos
chip before n r =
    if r == 0x0A
    then (if n % 2 == 0 then 0x80 else 0)
    else if r == 0x0B
    then 2
    else if r == 0
    then (if ltb n before then 0x14 else 0x15)
    else if r == 2
    then 0x30
    else if r == 4
    then 0x12
    else if r == 7
    then 0x29
    else if r == 8
    then 0x02
    else 0x24

chip-Ready : (before : ℕ) → Ready (chip before) 2
chip-Ready before n = elim (Bool-cases (n % 2 == 0)) [
  | inl e ↦
      let clear : ((n + 1) % 2 == 0) ≡ false = ground (arith, e) in (1, omega arith, rw clear refl)
  | inr e ↦
      let clear : ((n + 0) % 2 == 0) ≡ false = ground (arith, e) in (0, omega arith, rw clear refl)
]

chip-Steady : (before : ℕ) → Steady (chip before) before (registers leap_day 0x12)
unfolding read_time
chip-Steady before n late = ground arith

rtc_read_settles_example :
    (answer : RtcTime) × (rtc_read (chip 10) 2 11 0 ≡ some answer) × Agreed (chip 10) 0 answer
rtc_read_settles_example =
    rtc_read_settles (chip 10) 2 10 (chip-Ready 10) (chip-Steady 10) 0 11 (omega arith)
      (omega arith)

init_rtc_lem_example :
    init_rtc (chip 0) 2 1 0
    ≡ some (days_since_1970 leap_day_2024 * 86400 + 12 * 3600 + 30 * 60 + 15)
init_rtc_lem_example =
    init_rtc_lem (chip 0) 2 0 leap_day (chip-Ready 0) (omega arith) leap_day-Since1970
      (chip-Steady 0) (λ n late. refl) 1 (omega arith)

-- What the chip yields, with one pass torn: 12:30:15 on that day.
read_chip : rtc_read (chip 10) 2 11 0 ≡ some leap_day_2024
unfolding rtc_read read_time decode
read_chip = refl
