-- ===== src/Rtc/Read.antt =====
-- The polling of the clock's registers in kernel/drivers/rtc.c: rtc_read ends once the clock holds
-- still, and answers what two passes over the registers agree on.
use toast_os.Prelude.{
  ℕ, zero, suc, ◌+◌, ◌*◌, ◌≤◌, ◌<◌, ◌≡◌, refl, true, some, ◌==◌, ap, ◌∙◌, arith, Bool-cases,
  lt_or_le, inl, inr,
}
use toast_os.Rtc.{
  RtcTime, Cmos, get_update_in_progress_flag, wait_ready, read_time, same_time, settle, rtc_read,
  init_rtc, decode,
}
use toast_os.Rtc.Bcd.{to_bcd, registers, TwoDigits, decode_24}
use toast_os.Rtc.Calendar.{Since1970, days_since_1970, rtc_to_epoch_lem}

-- The update flag is clear at one of any `waits` reads in succession.
abbrev pub Ready : Cmos → (waits : ℕ) → Type 0
Ready cmos waits = (n : ℕ) → (k : ℕ) × (k < waits) × (get_update_in_progress_flag cmos (n + k) ≡ 0)

-- From the count-th read on each pass over the registers gives the same.
abbrev pub Steady : Cmos → (count : ℕ) (raw : RtcTime) → Type 0
Steady cmos count raw = (n : ℕ) → count ≤ n → read_time cmos n ≡ raw

-- The answer that two passes agree on, the second after the end of the first.
pub record Agreed (cmos : Cmos) (start : ℕ) (answer : RtcTime) : Type 0 where
  pub first : ℕ
  pub second_pass : ℕ
  pub begins : start ≤ first
  pub apart : first + 6 < second_pass
  pub agree : read_time cmos first ≡ read_time cmos second_pass
  pub answers : answer ≡ decode (read_time cmos second_pass) (cmos (second_pass + 6) 0x0B)

wait_ready_returns :
    (cmos : Cmos) (f n k : ℕ)
    → k < f
    → get_update_in_progress_flag cmos (n + k) ≡ 0
    → (m : ℕ) × (wait_ready cmos f n ≡ some m) × (n < m)
unfolding wait_ready
wait_ready_returns cmos zero n k h clear = elim h [ ]
wait_ready_returns cmos (suc f) n zero h clear =
    let now : get_update_in_progress_flag cmos n ≡ 0 =
      ap (λ i. get_update_in_progress_flag cmos i) {x = n} {y = n + 0} (omega arith) ∙ clear in
    rw now (n + 1, refl, omega arith)
wait_ready_returns cmos (suc f) n (suc k) h clear =
    let later = wait_ready_returns cmos f (n + 1) k (omega (arith, h)) (
      ap (λ i. get_update_in_progress_flag cmos i) {x = n + 1 + k} {y = n + suc k} (omega arith)
      ∙ clear) in
    elim (Bool-cases (get_update_in_progress_flag cmos n == 0)) [
      | inl e ↦ rw e (n + 1, refl, omega arith)
      | inr e ↦ rw e (later.0, later.1, omega (arith, later.2))
    ]

same_time-eq : (a b : RtcTime) → same_time a b ≡ true → a ≡ b
unfolding same_time
same_time-eq a b h = ground arith

same_time_refl : (a : RtcTime) → same_time a a ≡ true
unfolding same_time
same_time_refl a = ground arith

module _ (cmos : Cmos) (waits from : ℕ) {raw : RtcTime} (ready : Ready cmos waits)
    (steady : Steady cmos from raw) where
  -- One more pass agrees with the last if that was made after the clock came to rest.
  settle_agrees :
      (start l f : ℕ)
      → start ≤ l
      → 0 < f
      → from < l + f
      → (m : ℕ) × (k : ℕ) × (settle cmos waits f (read_time cmos l) (l + 6)
          ≡ some (read_time cmos m, m + 6))
        × (start ≤ k)
        × (k + 6 < m)
        × (read_time cmos k ≡ read_time cmos m)
  unfolding settle
  settle_agrees start l zero hs hf h = absurd (omega (arith, hf))
  settle_agrees start l (suc f) hs hf h =
      let (k, small, clear) = ready (l + 6) in
      let (m, found, after) = wait_ready_returns cmos waits (l + 6) k small clear in
      rw (found, settle)
        (elim (Bool-cases (same_time (read_time cmos l) (read_time cmos m))) [
          | inl e ↦ rw e (m, l, refl, hs, after, same_time-eq _ _ e)
          | inr e ↦ elim (lt_or_le l from) [
            | inl early ↦ rw e (
                settle_agrees start m f (omega (arith, hs, after)) (omega (arith, early, h))
                  (omega (arith, after, h)))
            | inr late ↦
                cc (
                  rw (steady l late, steady m (omega (arith, late, after)), same_time_refl raw) at
                    e)
          ]
        ])

  -- On a chip whose update flag keeps clearing, and whose registers come to rest after some reads,
  -- rtc_read with as many passes as those reads returns, and its answer is decoded from registers
  -- that two passes, one after the other, agree on.
  pub rtc_read_settles :
      (start passes : ℕ)
      → 0 < passes
      → from < start + passes
      → (answer : RtcTime) × (rtc_read cmos waits passes start ≡ some answer)
        × Agreed cmos start answer
  unfolding rtc_read
  rtc_read_settles start passes some_pass enough =
      let (k, small, clear) = ready start in
      let (l, found, after) = wait_ready_returns cmos waits start k small clear in
      let (m, first, settled, begins, apart, agree) =
        settle_agrees l l passes (omega arith) some_pass (omega (arith, enough, after)) in
      rw (found, settled)
        (
          decode (read_time cmos m) (cmos (m + 6) 0x0B),
          refl,
          record {
            first = first;
            second_pass = m;
            begins = omega (arith, begins, after);
            apart = apart;
            agree = agree;
            answers = refl;
          },
        )

-- While the chip shows a date of this century in decimal, on a 24-hour clock, and its update flag
-- keeps clearing, init_rtc sets boot_epoch_seconds to the seconds from the start of 1970 to that
-- date and time.
pub init_rtc_lem :
    (cmos : Cmos) (waits start : ℕ) (t : RtcTime)
    → Ready cmos waits
    → t.year < 100
    → Since1970 (record t { year = t.year + 2000 })
    → Steady cmos start (registers t (to_bcd t.hour))
    → ((n : ℕ) → start ≤ n → cmos n 0x0B ≡ 2)
    → (passes : ℕ) → 0 < passes
    → init_rtc cmos waits passes start
      ≡ some (
          days_since_1970 (record t { year = t.year + 2000 }) * 86400
          + t.hour * 3600
          + t.minute * 60
          + t.second)
unfolding init_rtc
init_rtc_lem cmos waits start t ready century v steady mode passes enough =
    let (answer, returns, a) =
      rtc_read_settles cmos waits start ready steady start passes enough (omega (arith, enough)) in
    let begins = a.begins in
    let apart = a.apart in
    let two : TwoDigits t = record {
      second_small = omega (arith, v.time_in);
      minute_small = omega (arith, v.time_in);
      day_small = ground (arith, v.day_in);
      month_small = omega (arith, v.month_in);
      year_small = century;
    } in
    let read : answer ≡ record t { year = t.year + 2000 } =
      a.answers
      ∙ rw
          (
            steady a.second_pass (omega (arith, begins, apart)),
            mode (a.second_pass + 6) (omega (arith, begins, apart)),
          )
          (decode_24 t two v.time_in.0) in
    rw (returns, read) (ap (λ n. some n) (rtc_to_epoch_lem (record t { year = t.year + 2000 }) v))
