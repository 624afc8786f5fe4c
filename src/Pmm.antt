-- ===== src/Pmm.antt =====
-- The physical frame allocator, kernel/mmu/pmm.c: a bitmap with one bit for each 4 KiB frame (1 for
-- a frame in use), a count of free frames, and the start-up scan of the bootloader's memory map.
--
-- `Pmm` is `pmm_header_t`. The bitmap that `b_map` points at is the list of its bytes, so
-- `bitmap_bytes` is the list's length where the map is placed; a write past the end of the bitmap
-- changes nothing in the model, and `Pmm.Init` says when the code makes none.
pub mod Bitmap
pub mod Frames
pub mod Alloc
pub mod Init
pub mod Counted
pub mod Placing
pub mod Reserve
pub mod Taken
mod Tests
use toast_os.Prelude.{
  ℕ, zero, suc, ◌+◌, ◌-◌, ◌*◌, ◌/◌, ◌%◌, ◌^◌, Bool, true, false, Option, none, some, List, [], ◌∷◌,
  bit_and, bit_or, ltb, leb, ◌==◌, if◌then◌else◌, u64, sub64, get_or, set, length, replicate, not,
  ◌&&◌, ◌||◌,
}

abbrev pub page_size : ℕ
page_size = 4096

pub record Pmm : Type 0 where
  pub hhdm_base : ℕ
  pub kernel_phys_base : ℕ
  pub kernel_virt_base : ℕ
  pub kernel_phys_end : ℕ
  pub bitmap_phys : ℕ
  pub bitmap_bytes : ℕ
  pub alloc_start_frame : ℕ
  pub max_frames : ℕ
  pub free_frames : ℕ
  pub b_map : List ℕ

pub get_max_addr : Pmm → ℕ
get_max_addr pmm = u64 (pmm.max_frames * page_size)

-- Pointers into the direct map of physical memory.
unfoldable pub get_virt_addr : Pmm → ℕ → ℕ
get_virt_addr pmm paddr = u64 (paddr + pmm.hhdm_base)

unfoldable pub get_phys_addr : Pmm → ℕ → ℕ
get_phys_addr pmm vaddr = sub64 vaddr pmm.hhdm_base

-- `b & (1 << bit)`, `b &= ~(1 << bit)` and `b |= (1 << bit)` on a byte.
abbrev pub test_bit : ℕ → ℕ → Bool
test_bit b i = not (bit_and b (2 ^ i) == 0)

abbrev pub clear_bit : ℕ → ℕ → ℕ
clear_bit b i = bit_and b (255 - 2 ^ i)

abbrev pub set_bit : ℕ → ℕ → ℕ
set_bit b i = bit_or b (2 ^ i)

pub free_frame : Pmm → ℕ → Pmm
free_frame pmm frame_addr =
    let frame = frame_addr / 4096 in
    let byte_idx = frame / 8 in
    let bit_idx = frame % 8 in
    record pmm {
      b_map = set pmm.b_map byte_idx (clear_bit (get_or pmm.b_map byte_idx 0) bit_idx);
      free_frames = u64 (pmm.free_frames + 1);
    }

-- The test `free_frames < 0` on a `uint64_t` is never true, so the count always goes down by one.
unfoldable pub alloc_frame : Pmm → ℕ → Pmm
alloc_frame pmm frame_addr =
    let frame = frame_addr / 4096 in
    let byte_idx = frame / 8 in
    let bit_idx = frame % 8 in
    record pmm {
      b_map = set pmm.b_map byte_idx (set_bit (get_or pmm.b_map byte_idx 0) bit_idx);
      free_frames = if ltb pmm.free_frames 0 then 0 else sub64 pmm.free_frames 1;
    }

-- The inner loop of `pmm_alloc`, with `n` rounds left from `bit` on.
unfoldable pub find_bit : ℕ → ℕ → ℕ → Option ℕ
find_bit b bit zero = none
find_bit b bit (suc n) =
    let rest = find_bit b (bit + 1) n in if not (test_bit b bit) then some bit else rest

-- The outer loop, with `n` rounds left from byte `i` on: the index of the frame that is taken.
unfoldable pub find_frame : List ℕ → ℕ → ℕ → Option ℕ
find_frame b_map i zero = none
find_frame b_map i (suc n) =
    let rest = find_frame b_map (i + 1) n in
    if get_or b_map i 0 == 0xFF
    then rest
    else elim (find_bit (get_or b_map i 0) 0 8) [ none ↦ rest | some bit ↦ some (i * 8 + bit) ]

-- Returns the address, 0 if memory is exhausted.
unfoldable pub pmm_alloc : Pmm → ℕ × Pmm
unfolding find_frame find_bit alloc_frame
pmm_alloc pmm = elim (find_frame pmm.b_map 0 pmm.bitmap_bytes) [
  | none ↦ (0, pmm)
  | some frame_idx ↦
      let phys_addr = u64 (frame_idx * 4096) in (phys_addr, alloc_frame pmm phys_addr)
]

pub pmm_free : Pmm → ℕ → Pmm
unfolding free_frame
pmm_free pmm paddr = free_frame pmm paddr
