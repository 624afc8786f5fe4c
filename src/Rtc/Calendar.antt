-- ===== src/Rtc/Calendar.antt =====
-- The calendar that rtc_to_epoch of kernel/drivers/rtc.c stands for: days counted year by year and
-- month by month from the start of 1970, and the seconds of the day.
use toast_os.Prelude.{
  ℕ, zero, suc, ◌+◌, ◌-◌, ◌*◌, ◌/◌, ◌%◌, ◌≤◌, ◌<◌, ◌≡◌, refl, Bool, true, false, if◌then◌else◌,
  ◌==◌, arith, ◌&&◌, ◌||◌, not, ==_iff,
}
use toast_os.Prelude.Bits.{all_below, test-all_below}
use toast_os.Rtc.{RtcTime, rtc_to_epoch}

abbrev pub is_leap : ℕ → Bool
is_leap y = (y % 4 == 0) && (not (y % 100 == 0) || (y % 400 == 0))

abbrev pub days_in_month : (leap : Bool) (month : ℕ) → ℕ
days_in_month leap month =
    if month == 2
    then (if leap then 29 else 28)
    else if (month == 4) || (month == 6) || (month == 9) || (month == 11)
    then 30
    else 31

-- The days of the first `n` years from 1970 on.
unfoldable pub days_of_years : ℕ → ℕ
days_of_years zero = 0
days_of_years (suc n) = days_of_years n + (if is_leap (1970 + n) then 366 else 365)

-- The days of the first `n` months of a year.
unfoldable pub days_of_months : Bool → ℕ → ℕ
days_of_months leap zero = 0
days_of_months leap (suc n) = days_of_months leap n + days_in_month leap (n + 1)

-- The days from the start of 1970 to a date.
unfoldable pub days_since_1970 : RtcTime → ℕ
days_since_1970 t =
    days_of_years (t.year - 1970) + days_of_months (is_leap t.year) (t.month - 1) + (t.day - 1)

-- A date from 1970 on for which the days fit a word of 32 bits, with a time of day in bytes.
pub record Since1970 (t : RtcTime) : Type 0 where
  pub year_in : (1970 ≤ t.year) × (t.year < 11000000)
  pub month_in : (1 ≤ t.month) × (t.month ≤ 12)
  pub day_in : (1 ≤ t.day) × (t.day ≤ days_in_month (is_leap t.year) t.month)
  pub time_in : (t.hour < 24) × (t.minute < 60) × (t.second < 60)

-- The years in closed form, as the code counts them, with 719162 days before 1970.
days_of_years_closed :
    (n : ℕ)
    → days_of_years n + 719162 + (1969 + n) / 100
      ≡ 365 * (1969 + n) + (1969 + n) / 4 + (1969 + n) / 400
unfolding days_of_years
days_of_years_closed zero = refl
days_of_years_closed (suc n) = ground (arith, days_of_years_closed n)

-- From March on the months before one have 30.6 days each, rounded down, but for a shift.
days_of_months_closed :
    (leap : Bool) (n : ℕ)
    → n < 10
    → days_of_months leap (n + 2) + 63 ≡ 306 * (n + 4) / 10 + (if leap then 1 else 0)
unfolding days_of_months all_below
days_of_months_closed true n h =
    (==_iff _ _).0
      (test-all_below (λ n. days_of_months true (n + 2) + 63 == 306 * (n + 4) / 10 + 1) 10 refl n h)
days_of_months_closed false n h =
    (==_iff _ _).0 (
      test-all_below (λ n. days_of_months false (n + 2) + 63 == 306 * (n + 4) / 10 + 0) 10 refl n h)

-- The thirteenth and the fourteenth month of the year before.
days_of_months_early :
    (leap : Bool) (m : ℕ) → 1 ≤ m → m ≤ 2 → days_of_months leap (m - 1) ≡ 31 * (m - 1)
unfolding days_of_months
days_of_months_early leap zero lo hi = absurd (omega arith)
days_of_months_early leap (suc zero) lo hi = refl
days_of_months_early leap (suc (suc zero)) lo hi = refl
days_of_months_early leap (suc (suc (suc m))) lo hi = absurd (omega arith)

-- For a date from 1970 on, of any month and in leap years too, rtc_to_epoch counts the days of the
-- years and the months before it, and the seconds of its day.
pub rtc_to_epoch_lem :
    (t : RtcTime)
    → Since1970 t
    → rtc_to_epoch t ≡ days_since_1970 t * 86400 + t.hour * 3600 + t.minute * 60 + t.second
unfolding rtc_to_epoch days_since_1970
rtc_to_epoch_lem t v =
    let years = days_of_years_closed (t.year - 1970) in
    let late = days_of_months_closed (is_leap t.year) (t.month - 3) in
    let early = days_of_months_early (is_leap t.year) t.month v.month_in.0 in
    ground (arith, years, late, early)
