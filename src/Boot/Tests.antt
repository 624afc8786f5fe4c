-- ===== src/Boot/Tests.antt =====
-- A start of the kernel on a megabyte of memory.
use mathlib.Core.Path.{subst}
use toast_os.Prelude.{
  ℕ, ◌<◌, ◌/◌, ◌%◌, ◌≤◌, ◌≡◌, ◌≢◌, refl, sym, ap, ◌∙◌, true, false, none, some, List, [], ◌∷◌,
  arith, length, replicate, if◌then◌else◌, ◌==◌, ◌||◌,
}
use toast_os.Serial.{debug_print}
use toast_os.Rtc.{rtc_read, read_time, init_rtc}
use toast_os.Console.{Console, con_white, con_black}
use toast_os.Pmm.{Pmm, pmm_alloc, alloc_frame, find_frame, find_bit}
use toast_os.Pmm.Frames
use toast_os.Pmm.Init.{Entry, Boot, init_pmm, skips}
use toast_os.Pmm.Reserve.{covered}
use toast_os.Vmm.{Vmm, init_vmm}
use toast_os.Vmm.Tables.{table_at, IsTree}
use toast_os.Boot.{Loader, Machine, Parts, Start, boots, hcf, stops, start}
use toast_os.Boot.Space.{Loaded, HasMemory, regions, frames_of, loader_phys, start-HasMemory}

-- The kernel in the first 32 KiB, and then usable memory.
abbrev loader : Loader
loader = record {
  framebuffers =
      some (record { address = 0x80000000; width = 64; height = 32; pitch = 256; bpp = 32 } ∷ []);
  hhdm = some 0;
  kaddr = some (0, 0);
  memmap = some (
    record { base = 0; len = 0x8000; typ = 6 },
    record { base = 0x8000; len = 0x108000; typ = 0 } ∷ [],
  );
}

-- The bitmap takes frame 8; frames 9 to 271 are free.
abbrev pmm : Pmm
pmm = record {
  hhdm_base = 0;
  kernel_phys_base = 0;
  kernel_virt_base = 0;
  kernel_phys_end = 0x8000;
  bitmap_phys = 0x8000;
  bitmap_bytes = 34;
  alloc_start_frame = 0x8022;
  max_frames = 272;
  free_frames = 263;
  b_map = 255 ∷ 1 ∷ replicate 32 0;
}

abbrev regions_left : List Entry
regions_left =
    record { base = 0; len = 0x8000; typ = 6 }
    ∷ record { base = 0x8022; len = 0x107FDE; typ = 0 }
    ∷ []

pmm_at_start : init_pmm loader.hhdm loader.kaddr loader.memmap ≡ Boot.ready (pmm, regions_left)
unfolding init_pmm skips
pmm_at_start = refl

abbrev loader_vmm : Vmm
loader_vmm = record {
  pmm = pmm;
  ram = λ p i. 0;
  contexts = λ c. 0;
  kernel_ctx = 64;
  nx_enabled = false;
  cr3 = 0x1000;
  freed = [];
}

no_table : (i : ℕ) (path : List ℕ) → table_at (λ p i. 0) 4096 (i ∷ path) ≡ none
no_table i [] = refl
no_table i (j ∷ path) = rw (no_table j path) refl

loader-IsTree : IsTree (λ t. []) 4096 loader_vmm
loader-IsTree = record {
  frames = record { sized = refl; bytes = omega arith; fits = omega arith; counted = refl };
  small = omega arith;
  owned = owned;
  used = used;
  no_huge_root = λ i e. refl;
}
  where
    owned :
        (path : List ℕ) (t : ℕ)
        → length path ≤ 3
        → table_at (λ p i. 0) 4096 path ≡ some t
        → [] ≡ path
    owned [] t le e = refl
    owned (i ∷ path) t le e = cc (no_table i path, e)

    used :
        (path : List ℕ) (t : ℕ)
        → length path ≤ 3
        → table_at (λ p i. 0) 4096 path ≡ some t
        → Frames.Used pmm (t / 4096) × (t % 4096 ≡ 0)
    used [] t le e = let at : 4096 ≡ t = cc e in rw (sym at) (refl, refl)
    used (i ∷ path) t le e = cc (no_table i path, e)

first_frame : (pmm_alloc pmm).0 ≡ 0x9000
unfolding pmm_alloc alloc_frame find_frame find_bit
first_frame = refl

some_memory : (pmm_alloc pmm).0 ≢ 0
some_memory e = omega (arith, first_frame, e)

abbrev pmm_of : Boot (Pmm × List Entry) → Pmm
pmm_of (Boot.ready (p, left)) = p
pmm_of (Boot.kpanic reason) = pmm
pmm_of Boot.null_bitmap = pmm

same_pmm :
    (p : Pmm) (left : List Entry)
    → init_pmm loader.hhdm loader.kaddr loader.memmap ≡ Boot.ready (p, left)
    → pmm ≡ p
same_pmm p left e = ap pmm_of (sym pmm_at_start) ∙ ap pmm_of e

loader-inside : (g : ℕ) → covered g (regions loader.memmap) ≡ true → g < frames_of loader.memmap
loader-inside g c = ground (arith, c)

loader-Loaded : Loaded (λ t. []) loader loader_vmm
loader-Loaded = record {
  fits = (omega arith, (omega arith, tt));
  disjoint = (λ g c. ground (arith, c), (λ g c. refl, tt));
  inside = loader-inside;
  tree = λ p left e v.
      subst (λ q. IsTree (λ t. []) 4096 (record loader_vmm { pmm = q })) (same_pmm p left e)
        loader-IsTree;
  memory = λ p left e. subst (λ q. (pmm_alloc q).0 ≢ 0) (same_pmm p left e) some_memory;
}

-- 1 January 2026, on a chip that is never busy, and a line that always has room.
abbrev machine : Machine
machine = record {
  cmos = λ n r.
      if r == 0x0B
      then 2
      else if (r == 0x07) || (r == 0x08)
      then 1
      else if r == 0x09
      then 0x26
      else 0;
  rtc_waits = 1;
  rtc_passes = 1;
  line = λ n. 0x20;
  line_waits = 1;
  nx = true;
  tss_at = 0x2000;
  gdt_at = 0x3000;
  idt_at = 0x4000;
  isr = λ v. 0x5000;
  irq = λ v. 0x6000;
  timer_handler = 0x7000;
  kb_handler = 0x7100;
}

abbrev no_console : Console
no_console = record {
  ansi_state = 0;
  ansi_param = 0;
  cursor_visible = false;
  cursor_blink_counter = 0;
  con_fg = con_white;
  con_bg = con_black;
  cursor_col = 0;
  cursor_row = 0;
  con_cols = 0;
  con_rows = 0;
  font_width = 8;
  font_height = 16;
  fb_addr = 0;
  drawn = [];
}

abbrev parts : Parts
parts = record {
  screen = record {
    fb = record { addr = 0; width = 0; height = 0; pitch = 0; bpp = 0 };
    mem = λ a. 0;
  };
  con = no_console;
  gdt = record {
    entries = [];
    tss_entry = record {
      limit_low = 0;
      base_low = 0;
      base_mid = 0;
      access = 0;
      granularity = 0;
      base_high = 0;
      base_upper = 0;
      reserved = 0;
    };
    tss_rsp_0 = 0;
    tss_iopb = 0;
    gdtr_lim = 0;
    gdtr_base = 0;
  };
  idt = record {
    idt_ent = λ i. record {
      base_lo = 0;
      selector = 0;
      ist = 0;
      flags = 0;
      base_mid = 0;
      base_hi = 0;
      reserved = 0;
    };
    irq_map = λ i. 0;
    base = 0;
    lim = 0;
    ports = [];
  };
  timer = record { tick_count = 0; channel_0_hz = 100 };
  boot_epoch_seconds = 0;
  kb = record {
    kbuf = replicate 256 0;
    kbuf_head = 0;
    kbuf_tail = 0;
    caps_on = false;
    ctrl = false;
    shift = false;
    extended = false;
  };
  kheap = record { k_heap = none; vmm = loader_vmm };
  sent = [];
}

abbrev parts_of : Start → Parts
parts_of (boots s) = s
parts_of hcf = parts
parts_of stops = parts

up : Parts
unfolding start init_pmm skips pmm_alloc alloc_frame find_frame find_bit debug_print init_rtc
up = parts_of (start loader machine parts)

comes_up : start loader machine parts ≡ boots up
unfolding up rtc_read read_time init_vmm
comes_up = refl

start-HasMemory_example : HasMemory (loader_phys loader_vmm) up.kheap
start-HasMemory_example = start-HasMemory (λ t. []) loader machine parts up loader-Loaded comes_up
