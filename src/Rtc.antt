-- ===== src/Rtc.antt =====
-- The real-time clock, kernel/drivers/rtc.c: decoding the CMOS registers and the epoch.
--
-- The chip is an argument, the byte that each read of the port gives. The waits for the update flag
-- and the passes over the registers have as many rounds as an argument says; Rtc.Read has enough.
-- Words of 32 bits wrap; `days` is computed in 32 bits before it is widened, so it wraps as well.
pub mod Bcd
pub mod Calendar
pub mod Read
mod Tests
use toast_os.Prelude.{
  zero, suc, Option, none, some, ◌>>=◌, ◌||◌, ℕ, ◌+◌, ◌-◌, ◌*◌, ◌/◌, ◌%◌, ◌^◌, Bool, true, false,
  if◌then◌else◌, ltb, leb, ◌==◌, u8, u32, u64, sub32, not, ◌&&◌, bit_and, bit_or,
}
use toast_os.Timer.{Timer, get_uptime_seconds}

pub record RtcTime : Type 0 where
  pub second : ℕ
  pub minute : ℕ
  pub hour : ℕ
  pub day : ℕ
  pub month : ℕ
  pub year : ℕ

-- `(v & 0x0F) + ((v / 16) * 10)`, kept in a byte
abbrev pub from_bcd : ℕ → ℕ
from_bcd v = u8 (bit_and v 15 + v / 16 * 10)

abbrev pub hour_from_bcd : ℕ → ℕ
hour_from_bcd v = bit_or (bit_and v 15 + bit_and v 112 / 16 * 10) (bit_and v 128)

-- What `rtc_read` makes of the registers and of `regB`.
unfoldable pub decode : RtcTime → (reg_b : ℕ) → RtcTime
decode raw reg_b =
    let t =
      if bit_and reg_b 4 == 0
      then record {
        second = from_bcd raw.second;
        minute = from_bcd raw.minute;
        hour = hour_from_bcd raw.hour;
        day = from_bcd raw.day;
        month = from_bcd raw.month;
        year = from_bcd raw.year;
      }
      else raw in
    let pm = (bit_and reg_b 2 == 0) && not (bit_and t.hour 128 == 0) in
    record t { hour = if pm then (bit_and t.hour 127 + 12) % 24 else t.hour; year = t.year + 2000 }

unfoldable pub rtc_to_epoch : RtcTime → ℕ
rtc_to_epoch t =
    let early = leb t.month 2 in
    let y = if early then sub32 t.year 1 else t.year in
    let m = if early then t.month + 12 else t.month in
    let days = u32 (
      365 * y
      + y / 4
      + 2 ^ 32
      - y / 100
      + y / 400
      + 306 * (m + 1) / 10
      + t.day
      + 2 ^ 32
      - 719591) in
    u64 (days * 86400 + t.hour * 3600 + t.minute * 60 + t.second)

unfoldable pub get_epoch_time : (boot_epoch_seconds : ℕ) → Timer → ℕ
get_epoch_time boot timer = u64 (boot + get_uptime_seconds timer)

-- What the count-th read of CMOS_DATA gives while a register is selected.
abbrev pub Cmos : Type 0
Cmos = (count : ℕ) → (register : ℕ) → ℕ

abbrev pub get_update_in_progress_flag : Cmos → (count : ℕ) → ℕ
get_update_in_progress_flag cmos n = bit_and (cmos n 0x0A) 0x80

-- `while (get_update_in_progress_flag());`, with the number of the next read.
pub wait_ready : Cmos → (rounds count : ℕ) → Option ℕ
wait_ready cmos zero n = none
wait_ready cmos (suc f) n =
    let rest = wait_ready cmos f (n + 1) in
    if get_update_in_progress_flag cmos n == 0 then some (n + 1) else rest

-- A pass over the six registers.
unfoldable pub read_time : Cmos → (count : ℕ) → RtcTime
read_time cmos n = record {
  second = cmos n 0x00;
  minute = cmos (n + 1) 0x02;
  hour = cmos (n + 2) 0x04;
  day = cmos (n + 3) 0x07;
  month = cmos (n + 4) 0x08;
  year = cmos (n + 5) 0x09;
}

pub same_time : RtcTime → RtcTime → Bool
same_time last time = not (
    not (last.second == time.second)
    || not (last.minute == time.minute)
    || not (last.hour == time.hour)
    || not (last.day == time.day)
    || not (last.month == time.month)
    || not (last.year == time.year))

-- The double validation: passes until one agrees with the last.
pub settle : Cmos → (waits passes : ℕ) (last : RtcTime) (count : ℕ) → Option (RtcTime × ℕ)
settle cmos waits zero last n = none
settle cmos waits (suc f) last n = elim (wait_ready cmos waits n) [
  | none ↦ none
  | some m ↦
      let time = read_time cmos m in
      let rest = settle cmos waits f time (m + 6) in
      if same_time last time then some (time, m + 6) else rest
]

unfoldable pub rtc_read : Cmos → (waits passes count : ℕ) → Option RtcTime
unfolding settle wait_ready same_time
rtc_read cmos waits passes n = do
  m ← wait_ready cmos waits n
  (time, k) ← settle cmos waits passes (read_time cmos m) (m + 6)
  some (decode time (cmos k 0x0B))

-- `boot_epoch_seconds`
unfoldable pub init_rtc : Cmos → (waits passes count : ℕ) → Option ℕ
init_rtc cmos waits passes n = do now ← rtc_read cmos waits passes n; some (rtc_to_epoch now)
