-- ===== src/Irq.antt =====
-- The interrupt lock of kernel/multitasking/task.c: `cli` and `sti` under a nesting counter, which
-- the tables of kernel/multitasking/taskTable.c and the scheduler share.
use toast_os.Prelude.{
  ℕ, ◌+◌, ◌^◌, ◌<◌, ◌≡◌, Bool, true, false, u64, sub64, ◌==◌, if◌then◌else◌, arith,
}

-- `IRQ_disable_counter`, and the interrupt flag of the processor.
pub record Irq : Type 0 where
  pub disable_counter : ℕ
  pub enabled : Bool

unfoldable pub lock_schedule : Irq → Irq
lock_schedule irq = record { disable_counter = u64 (irq.disable_counter + 1); enabled = false }

unfoldable pub unlock_schedule : Irq → Irq
unlock_schedule irq =
    let count = sub64 irq.disable_counter 1 in
    record { disable_counter = count; enabled = if count == 0 then true else irq.enabled }

-- A critical section is nested as deep as the counter says, and interrupts are off inside.
pub record IsValid (irq : Irq) : Type 0 where
  pub bounded : irq.disable_counter < 2 ^ 63
  pub off_inside : irq.enabled ≡ (irq.disable_counter == 0)

pub lock_schedule-IsValid :
    {irq : Irq} → IsValid irq → irq.disable_counter + 1 < 2 ^ 63 → IsValid (lock_schedule irq)
unfolding lock_schedule
lock_schedule-IsValid v h = ground arith

-- Leaving a critical section undoes entering it.
pub unlock_schedule-lock_schedule :
    {irq : Irq} → IsValid irq → unlock_schedule (lock_schedule irq) ≡ irq
unfolding lock_schedule unlock_schedule
unlock_schedule-lock_schedule v = ground arith

pub unlock_schedule-lock_schedule_inner :
    {irq : Irq}
    → IsValid irq
    → unlock_schedule (lock_schedule (lock_schedule irq)) ≡ lock_schedule irq
unfolding lock_schedule unlock_schedule
unlock_schedule-lock_schedule_inner v = ground arith
