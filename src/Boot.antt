-- ===== src/Boot.antt =====
-- The start of the kernel, `_start` of kernel/kernel.c: the initialisers in their order, each on what
-- those before it leave.
--
-- The boot loader's answers and what the chips answer are arguments. init_syscall, which writes
-- registers of the processor, is left out.
pub mod Space
mod Tests
use toast_os.Prelude.{ℕ, Bool, true, false, Option, none, some, List, [], ◌∷◌, ◌++◌, codes, ◌>>=◌}
use toast_os.Serial.{Event, Line, debug_print}
use toast_os.Video.{Screen, fb_init}
use toast_os.Console.{Console, console_init, console_set_color, con_white, con_black}
use toast_os.Gdt.{Gdt, init_gdt}
use toast_os.Idt.{Idt, init_idt, irq_assign_handler}
use toast_os.Timer.{Timer, init_timer}
use toast_os.Rtc.{Cmos, init_rtc}
use toast_os.Keyboard.{Kb, init_kb}
use toast_os.Pmm.{Pmm}
use toast_os.Pmm.Init.{Entry, Boot, init_pmm}
use toast_os.Vmm.{Vmm, init_vmm}
use toast_os.Heap.{KHeap, init_kheap}

-- `struct limine_framebuffer`, as far as it is read.
pub record LimineFramebuffer : Type 0 where
  pub address : ℕ
  pub width : ℕ
  pub height : ℕ
  pub pitch : ℕ
  pub bpp : ℕ

-- What the boot loader answers; `none` is a response of NULL.
pub record Loader : Type 0 where
  pub framebuffers : Option (List LimineFramebuffer)
  pub hhdm : Option ℕ
  pub kaddr : Option (ℕ × ℕ)
  pub memmap : Option (Entry × List Entry)

-- The chips, with the rounds that are given to each wait, and the addresses that the linker chose.
pub record Machine : Type 0 where
  pub cmos : Cmos
  pub rtc_waits : ℕ
  pub rtc_passes : ℕ
  pub line : Line
  pub line_waits : ℕ
  pub nx : Bool
  pub tss_at : ℕ
  pub gdt_at : ℕ
  pub idt_at : ℕ
  pub isr : ℕ → ℕ
  pub irq : ℕ → ℕ
  pub timer_handler : ℕ
  pub kb_handler : ℕ

-- The static variables of the parts; of the memory, the page tables that are in force.
pub record Parts : Type 0 where
  pub screen : Screen
  pub con : Console
  pub gdt : Gdt
  pub idt : Idt
  pub timer : Timer
  pub boot_epoch_seconds : ℕ
  pub kb : Kb
  pub kheap : KHeap
  pub sent : List Event

-- The allocator, the kernel's page tables and its heap. `none` is a panic, or a write through a
-- bitmap pointer of NULL.
pub memory_of_boot : Boot (Pmm × List Entry) → Vmm → (nx : Bool) → Option KHeap
memory_of_boot (Boot.ready (pmm, left)) v nx = do
  v1 ← init_vmm (record v { pmm = pmm }) nx
  some (init_kheap (record { k_heap = none; vmm = v1 }))
memory_of_boot (Boot.kpanic reason) v nx = none
memory_of_boot Boot.null_bitmap v nx = none

unfoldable pub init_memory : Loader → Vmm → (nx : Bool) → Option KHeap
unfolding memory_of_boot
init_memory loader v nx = memory_of_boot (init_pmm loader.hhdm loader.kaddr loader.memmap) v nx

-- Up to the call of init_multitasking.
unfoldable pub init_parts : Loader → Machine → Parts → LimineFramebuffer → Option Parts
unfolding init_memory
init_parts loader m s fb = do
  let screen = fb_init s.screen fb.address fb.width fb.height fb.pitch fb.bpp
  let con =
      console_set_color (console_init s.con screen.fb.addr screen.fb.width screen.fb.height)
        con_white con_black
  (sent, count) ←
      debug_print m.line m.line_waits (codes "\n[Hello from the 64 bit serial port!]\n") 0
  let gdt = init_gdt s.gdt m.tss_at m.gdt_at
  let idt = init_idt m.idt_at m.isr m.irq s.idt
  let (timer, ports) = init_timer s.timer
  let idt_timer = irq_assign_handler idt 0 m.timer_handler
  epoch ← init_rtc m.cmos m.rtc_waits m.rtc_passes 0
  let idt_kb = irq_assign_handler idt_timer 1 m.kb_handler
  kheap ← init_memory loader s.kheap.vmm m.nx
  some (record {
    screen = screen;
    con = con;
    gdt = gdt;
    idt = idt_kb;
    timer = timer;
    boot_epoch_seconds = epoch;
    kb = init_kb s.kb;
    kheap = kheap;
    sent = s.sent ++ sent;
  })

-- `hcf` is the halt for want of a framebuffer; `stops` a panic or a wait that never ends.
pub data Start : Type 0 where
  hcf : Start
  stops : Start
  boots : Parts → Start

abbrev pub started : Option Parts → Start
started none = stops
started (some s) = boots s

-- The test of the response and of its `framebuffer_count`, and the rest.
unfoldable pub start_on : Loader → Machine → Parts → Option (List LimineFramebuffer) → Start
start_on loader m s none = hcf
start_on loader m s (some []) = hcf
start_on loader m s (some (fb ∷ rest)) = started (init_parts loader m s fb)

-- `_start`
unfoldable pub start : Loader → Machine → Parts → Start
unfolding start_on init_parts
start loader m s = start_on loader m s loader.framebuffers
