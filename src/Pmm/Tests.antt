-- ===== src/Pmm/Tests.antt =====
-- The theorems on kernel/mmu/pmm.c at a bitmap of sixteen frames, and at the boot of a small machine.
use toast_os.Prelude.{ℕ, ◌/◌, ◌≡◌, ◌⊎◌, refl, [], ◌∷◌, some, arith, if◌then◌else◌}
use toast_os.Pmm.{Pmm, pmm_alloc, pmm_free}
use toast_os.Pmm.Frames.{IsValid, mark}
use toast_os.Pmm.Init.{Entry, ready, skips, init_pmm}
use toast_os.Pmm.Placing.{available, highest, host, init_pmm_lem}
use toast_os.Pmm.Alloc.{Exhausted, Takes, pmm_alloc_lem, pmm_free-pmm_alloc}

-- Frames 9 and 10 are free.
abbrev two_free : Pmm
two_free = record {
  hhdm_base = 0;
  kernel_phys_base = 0;
  kernel_virt_base = 0;
  kernel_phys_end = 0;
  bitmap_phys = 4096;
  bitmap_bytes = 2;
  alloc_start_frame = 2;
  max_frames = 16;
  free_frames = 2;
  b_map = 255 ∷ 249 ∷ [];
}

two_free-IsValid : IsValid two_free
two_free-IsValid = record {
  sized = refl;
  bytes = (omega arith, (omega arith, tt));
  fits = omega arith;
  counted = refl;
}

pmm_alloc_lem_example :
    Exhausted two_free (pmm_alloc two_free) ⊎ ((f : ℕ) × Takes two_free (pmm_alloc two_free) f)
pmm_alloc_lem_example = pmm_alloc_lem two_free-IsValid

pmm_free-pmm_alloc_example : let (addr, pmm') = pmm_alloc two_free in pmm_free pmm' addr ≡ two_free
pmm_free-pmm_alloc_example = pmm_free-pmm_alloc two_free-IsValid (omega arith)

-- Two frames of kernel, and the rest of 64 KB usable; the bitmap takes the first two bytes of it.
abbrev kernel_entry : Entry
kernel_entry = record { base = 0; len = 8192; typ = 6 }

abbrev usable_entry : Entry
usable_entry = record { base = 8192; len = 57344; typ = 0 }

abbrev left_entry : Entry
left_entry = record { base = 8194; len = 57342; typ = 0 }

abbrev booted : Pmm
booted = record {
  hhdm_base = 0;
  kernel_phys_base = 0;
  kernel_virt_base = 0;
  kernel_phys_end = 8192;
  bitmap_phys = 8192;
  bitmap_bytes = 2;
  alloc_start_frame = 8194;
  max_frames = 16;
  free_frames = 13;
  b_map = 7 ∷ 0 ∷ [];
}

boots :
    init_pmm (some 0) (some (0, 0)) (some (kernel_entry, usable_entry ∷ []))
    ≡ ready (booted, kernel_entry ∷ left_entry ∷ [])
unfolding init_pmm skips
boots = refl

init_pmm_lem_example :
    (2 ≡ highest (kernel_entry, usable_entry ∷ []) / 4096 / 8)
    × (host 2 (kernel_entry ∷ usable_entry ∷ []) ≡ some 8192)
    × (mark booted.b_map 3 ≡ (if available 2 3 (kernel_entry ∷ usable_entry ∷ []) then 0 else 1))
init_pmm_lem_example =
    init_pmm_lem 0 (0, 0) (kernel_entry, usable_entry ∷ []) 3 boots (omega arith, (omega arith, tt))
      (omega arith)
