-- ===== src/Idt.antt =====
-- The interrupts, kernel/idt/idt.c: the table of gates, the exceptions, the interrupt lines.
--
-- The addresses of the assembly stubs are arguments, by their vector. What the handlers print is
-- left out. A port is written by a pair of its number and the byte.
pub mod Gates
pub mod Faults
pub mod Reports
mod Tests
use toast_os.Prelude.{
  ℕ, zero, suc, ◌+◌, ◌-◌, ◌*◌, ◌/◌, ◌^◌, Bool, true, false, Option, none, some, List, [], ◌∷◌, ◌++◌,
  ◌==◌, if◌then◌else◌, ltb, leb, not, ◌||◌, ◌&&◌, u64, bit_and,
}
use toast_os.Tasks.State.{Kernel}
use toast_os.Tasks.Life.{terminate_task}

pub record IdtEntry : Type 0 where
  pub base_lo : ℕ
  pub selector : ℕ
  pub ist : ℕ
  pub flags : ℕ
  pub base_mid : ℕ
  pub base_hi : ℕ
  pub reserved : ℕ

-- `idt_ent` and `irq_map` by their indices, `idtr`, and the ports written, latest first.
pub record Idt : Type 0 where
  pub idt_ent : ℕ → IdtEntry
  pub irq_map : ℕ → ℕ
  pub base : ℕ
  pub lim : ℕ
  pub ports : List (ℕ × ℕ)

-- The fields of `system_state` that the handlers test.
pub record SystemState : Type 0 where
  pub interr_num : ℕ
  pub cs : ℕ

abbrev pub gdt_cs : ℕ
gdt_cs = 0x08

abbrev pub int_gate_flags : ℕ
int_gate_flags = 0x8E

abbrev pub pic1_command : ℕ
pic1_command = 0x20

abbrev pub pic2_command : ℕ
pic2_command = 0xA0

abbrev pub eoi : ℕ
eoi = 0x20

abbrev pub gate : (base sel flags : ℕ) → IdtEntry
gate base sel flags = record {
  base_lo = bit_and base 0xFFFF;
  selector = sel;
  ist = 0;
  flags = flags;
  base_mid = bit_and (base / 2 ^ 16) 0xFFFF;
  base_hi = bit_and (base / 2 ^ 32) 0xFFFFFFFF;
  reserved = 0;
}

unfoldable pub encode_interrupt_gate : Idt → (index base sel flags : ℕ) → Idt
encode_interrupt_gate t index base sel flags = record t {
  idt_ent = λ i. if i == index then gate base sel flags else t.idt_ent i;
}

-- The calls for `n` vectors from `i` on.
unfoldable pub encode_gates : (n i : ℕ) → (stub : ℕ → ℕ) → Idt → Idt
unfolding encode_interrupt_gate
encode_gates zero i stub t = t
encode_gates (suc n) i stub t =
    encode_gates n (i + 1) stub (encode_interrupt_gate t i (stub i) gdt_cs int_gate_flags)

unfoldable pub isr_config : (isr : ℕ → ℕ) → Idt → Idt
unfolding encode_gates
isr_config isr t = encode_gates 1 177 isr (encode_gates 1 128 isr (encode_gates 32 0 isr t))

-- The lines 0 to 15 have the vectors 32 to 47.
unfoldable pub irq_config : (irq : ℕ → ℕ) → Idt → Idt
unfolding encode_gates
irq_config irq t = encode_gates 16 32 (λ v. irq (v - 32)) t

abbrev pub outb : Idt → (port value : ℕ) → Idt
outb t port value = record t { ports = (port, value) ∷ t.ports }

unfoldable pub pic_config : Idt → Idt
pic_config t =
    let t1 = outb (outb t pic1_command 0x11) pic2_command 0x11 in
    let t2 = outb (outb t1 (pic1_command + 1) 0x20) (pic2_command + 1) 0x28 in
    let t3 = outb (outb t2 (pic1_command + 1) 0x04) (pic2_command + 1) 0x02 in
    let t4 = outb (outb t3 (pic1_command + 1) 0x01) (pic2_command + 1) 0x01 in
    outb (outb t4 (pic1_command + 1) 0x0) (pic2_command + 1) 0x0

-- An entry of 16 bytes for each of 256 vectors; `at` is the address of `idt_ent`.
unfoldable pub init_idt : (at : ℕ) → (isr irq : ℕ → ℕ) → Idt → Idt
unfolding pic_config isr_config irq_config
init_idt at isr irq t =
    let empty : IdtEntry = record {
      base_lo = 0;
      selector = 0;
      ist = 0;
      flags = 0;
      base_mid = 0;
      base_hi = 0;
      reserved = 0;
    } in
    let cleared = record t {
      base = at;
      lim = 256 * 16 - 1;
      idt_ent = λ i. if ltb i 256 then empty else t.idt_ent i;
    } in
    irq_config irq (isr_config isr (pic_config cleared))

pub irq_assign_handler : Idt → (irq handler : ℕ) → Idt
irq_assign_handler t irq handler = record t {
  irq_map = λ i. if i == irq then handler else t.irq_map i;
}

pub irq_remove_handler : Idt → (irq : ℕ) → Idt
irq_remove_handler t irq = record t { irq_map = λ i. if i == irq then 0 else t.irq_map i }

-- The acknowledgements, and the handler that is called, if there is one.
pub irq_handler : Idt → SystemState → Option ℕ × Idt
irq_handler t sys =
    let t1 = if leb 40 sys.interr_num then outb t pic2_command eoi else t in
    let handler = t.irq_map (sys.interr_num - 32) in
    (if handler == 0 then none else some handler, outb t1 pic1_command eoi)

-- The fault is the running task's own.
unfoldable pub from_user : Kernel → SystemState → Bool
from_user k sys =
    (bit_and sys.cs 3 == 3) && not (k.current_task == 0) && (k.tcb k.current_task).is_user

-- What an exception comes to: the kernel halts, the running task is killed and the kernel goes on
-- as it stands then, or nothing.
pub data Outcome : Type 0 where
  panic : Outcome
  killed : Kernel → Outcome
  ignored : Outcome

module _ (idle : Kernel → Kernel) where
  unfoldable pub user_fault_kill : Kernel → Outcome
  user_fault_kill k = killed (terminate_task idle k)

  unfoldable pub pf_handler : Kernel → SystemState → Outcome
  unfolding from_user user_fault_kill
  pf_handler k sys = if from_user k sys then user_fault_kill k else panic

  unfoldable pub isr_handler : Kernel → SystemState → Outcome
  unfolding pf_handler
  isr_handler k sys =
      let n = sys.interr_num in
      if n == 14
      then pf_handler k sys
      else if ltb n 32
      then (if from_user k sys && (not (n == 2) && (not (n == 8) && not (n == 18)))
          then user_fault_kill k
          else panic)
      else ignored
