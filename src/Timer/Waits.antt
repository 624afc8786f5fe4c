-- ===== src/Timer/Waits.antt =====
-- That timer_wait_t of kernel/drivers/timer.c waits as many ticks as it is told.
use toast_os.Prelude.{
  ℕ, suc, ◌+◌, ◌^◌, ◌<◌, ◌≤◌, ◌≡◌, ap, Bool, true, false, some, List, [], ◌∷◌, ltb, u64, arith, inl,
  inr, lt_or_le, Bool-cases,
}
use toast_os.Timer.{Timer, count_tick, wait_until, timer_wait_t}

-- The timer's interrupts among them.
abbrev pub ticks_in : List Bool → ℕ
ticks_in [] = 0
ticks_in (true ∷ interrupts) = suc (ticks_in interrupts)
ticks_in (false ∷ interrupts) = ticks_in interrupts

at_target :
    (t : Timer) (target : ℕ)
    → t.tick_count ≡ target
    → some t ≡ some (record t { tick_count = target })
at_target t target e = ap (λ n. some (record t { tick_count = n })) e

one_tick :
    (t : Timer)
    → t.tick_count + 1 < 2 ^ 64
    → count_tick t ≡ record t { tick_count = t.tick_count + 1 }
unfolding count_tick
one_tick t h =
    ap (λ n. record t { tick_count = n }) {x = u64 (t.tick_count + 1)} {y = t.tick_count + 1}
      (omega (arith, h))

wait_until_lem :
    (target : ℕ) (interrupts : List Bool) (t : Timer)
    → target < 2 ^ 64
    → t.tick_count ≤ target
    → target ≤ t.tick_count + ticks_in interrupts
    → wait_until target interrupts t ≡ some (record t { tick_count = target })
unfolding wait_until
wait_until_lem target [] t wide low high =
    let test : ltb t.tick_count target ≡ false = ground (arith, high) in
    rw test (at_target t target (omega (arith, low, high)))
wait_until_lem target (true ∷ interrupts) t wide low high = elim (lt_or_le target t.tick_count) [
  | inl past ↦ absurd (omega (arith, past, low))
  | inr le ↦ elim (Bool-cases (ltb t.tick_count target)) [
    | inr done ↦ rw done (at_target t target (ground (arith, done, low)))
    | inl more ↦
        let step : count_tick t ≡ record t { tick_count = t.tick_count + 1 } =
          one_tick t (ground (arith, more, wide)) in
        rw (more, step)
          (wait_until_lem target interrupts (record t { tick_count = t.tick_count + 1 }) wide
            (ground (arith, more)) (omega (arith, high)))
  ]
]
wait_until_lem target (false ∷ interrupts) t wide low high =
    elim (Bool-cases (ltb t.tick_count target)) [
      | inr done ↦ rw done (at_target t target (ground (arith, done, low)))
      | inl more ↦ rw more (wait_until_lem target interrupts t wide low high)
    ]

-- As long as the clock does not run past its 64 bits, and among the interrupts that come there are
-- as many of the timer as timer_wait_t is asked to wait for, it returns when it has counted exactly
-- that many, whatever other interrupts come in between.
pub timer_wait_t_lem :
    (interrupts : List Bool) (ticks : ℕ) (t : Timer)
    → t.tick_count + ticks < 2 ^ 64
    → ticks ≤ ticks_in interrupts
    → timer_wait_t interrupts ticks t ≡ some (record t { tick_count = t.tick_count + ticks })
unfolding timer_wait_t
timer_wait_t_lem interrupts ticks t wide enough =
    let small : u64 (t.tick_count + ticks) ≡ t.tick_count + ticks = omega (arith, wide) in
    rw small (
      wait_until_lem (t.tick_count + ticks) interrupts t wide (omega arith) (omega (arith, enough)))
