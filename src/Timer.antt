-- ===== src/Timer.antt =====
-- kernel/drivers/timer.c: the tick counter of the PIT and the clocks read off it. The handler of the
-- timer interrupt also drives the scheduler; it is `Tasks.Sched.timer_handler`.
mod Tests
pub mod Waits
use toast_os.Prelude.{
  Bool, true, false, Option, none, some, ltb, ◌-◌, ℕ, ◌+◌, ◌*◌, ◌/◌, ◌^◌, List, [], ◌∷◌, bit_and,
  u64, ◌==◌, if◌then◌else◌,
}

-- `tick_count` and `channel_0_hz`
pub record Timer : Type 0 where
  pub tick_count : ℕ
  pub channel_0_hz : ℕ

unfoldable pub get_uptime_ms : Timer → ℕ
get_uptime_ms t = u64 (t.tick_count * 1000) / t.channel_0_hz

unfoldable pub get_uptime_ns : Timer → ℕ
get_uptime_ns t = u64 (u64 (t.tick_count * 1000) / t.channel_0_hz * 1000000)

unfoldable pub get_uptime_seconds : Timer → ℕ
get_uptime_seconds t = t.tick_count / t.channel_0_hz

unfoldable pub get_ns_per_tick : Timer → ℕ
get_ns_per_tick t = 1000000000 / t.channel_0_hz

unfoldable pub count_tick : Timer → Timer
count_tick t = record t { tick_count = u64 (t.tick_count + 1) }

abbrev pub pit_base_freq : ℕ
pit_base_freq = 1193180

-- The bytes sent to the ports of the PIT, in order: port and value.
unfoldable pub timer_config : Timer → ℕ → Timer × List (ℕ × ℕ)
timer_config t hz =
    let divisor = pit_base_freq / hz in
    if hz == 0 then (t, []) else (
      record t { channel_0_hz = hz },
      (0x43, 0x36) ∷ (0x40, bit_and divisor 0xFF) ∷ (0x40, bit_and (divisor / 2 ^ 8) 0xFF) ∷ [],
    )

pub get_tick_count : Timer → ℕ
get_tick_count t = t.tick_count

-- The loop of `timer_wait_t` over the interrupts that end a `hlt`, whether each is the timer's.
-- `none` waits for more.
unfoldable pub wait_until : (target : ℕ) → List Bool → Timer → Option Timer
unfolding count_tick
wait_until target [] t = if ltb t.tick_count target then none else some t
wait_until target (tick ∷ interrupts) t =
    let rest = wait_until target interrupts (if tick then count_tick t else t) in
    if ltb t.tick_count target then rest else some t

unfoldable pub timer_wait_t : List Bool → (ticks : ℕ) → Timer → Option Timer
unfolding wait_until
timer_wait_t interrupts ticks t = wait_until (u64 (t.tick_count + ticks)) interrupts t

-- The handler goes into line 0; the ports are written as `timer_config` says.
unfoldable pub init_timer : Timer → Timer × List (ℕ × ℕ)
unfolding timer_config
init_timer t = timer_config t t.channel_0_hz
