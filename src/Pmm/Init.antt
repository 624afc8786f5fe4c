-- ===== src/Pmm/Init.antt =====
-- `init_pmm`: the scan of the bootloader's memory map, the placing of the bitmap, and the freeing of
-- the usable frames. The bootloader's answers are the arguments; `none` is a response of NULL.
use toast_os.Prelude.{
  ℕ, zero, suc, ◌+◌, ◌-◌, ◌/◌, ◌^◌, Bool, true, false, not, ◌==◌, if◌then◌else◌, List, [], ◌∷◌,
  Option, none, some, ltb, leb, u64, ◌||◌, ◌&&◌, bit_and, replicate,
}
use toast_os.Pmm.{Pmm, page_size, free_frame}

-- `struct limine_memmap_entry`, with the types that the scan looks at.
pub record Entry : Type 0 where
  pub base : ℕ
  pub len : ℕ
  pub typ : ℕ

abbrev pub usable : ℕ
usable = 0

abbrev pub bootloader_reclaimable : ℕ
bootloader_reclaimable = 5

abbrev pub kernel_and_modules : ℕ
kernel_and_modules = 6

pub data Panic : Type 0 where
  hhdm_bad_response kaddr_bad_response memmap_bad_response bad_kernel_end : Panic

-- A panic halts the machine. `null_bitmap` is a write through the bitmap pointer when no entry has
-- room for the bitmap.
pub data Boot (A : Type 0) : Type 0 where
  ready : A → Boot A
  kpanic : Panic → Boot A
  null_bitmap : Boot A

-- `x & PAGE_MASK`
abbrev pub page_floor : ℕ → ℕ
page_floor x = bit_and x (2 ^ 64 - 4096)

abbrev pub is_usable : Entry → Bool
is_usable ent = ent.typ == usable

abbrev pub top : Entry → ℕ
top ent = u64 (ent.base + ent.len)

-- The first loop: the end of the kernel and the end of the highest memory.
unfoldable pub scan_map : List Entry → ℕ → ℕ → ℕ × ℕ
scan_map [] kernel_end max_mem = (kernel_end, max_mem)
scan_map (ent ∷ rest) kernel_end max_mem =
    scan_map rest
      (if (ent.typ == kernel_and_modules) && ltb kernel_end (top ent) then top ent else kernel_end)
      (if (is_usable ent || (ent.typ == bootloader_reclaimable)) && ltb max_mem (top ent)
        then top ent
        else max_mem)

-- The second loop: the first usable entry with room gives up its first `bytes` bytes.
unfoldable pub place_bitmap : ℕ → List Entry → Option (ℕ × List Entry)
place_bitmap bytes [] = none
place_bitmap bytes (ent ∷ rest) =
    if is_usable ent && leb bytes ent.len
    then some (ent.base, record ent { base = u64 (ent.base + bytes); len = ent.len - bytes } ∷ rest)
    else elim (place_bitmap bytes rest) [ none ↦ none | some (at, rest') ↦ some (at, ent ∷ rest') ]

-- `for (addr = start_addr; addr < end_addr; addr += PAGE_SIZE) free_frame(addr)`
unfoldable pub free_range : ℕ → ℕ → ℕ → Pmm → Pmm
unfolding free_frame
free_range zero addr end_addr pmm = pmm
free_range (suc fuel) addr end_addr pmm =
    let rest = free_range fuel (u64 (addr + page_size)) end_addr (free_frame pmm addr) in
    if ltb addr end_addr then rest else pmm

abbrev pub start_addr : Entry → ℕ
start_addr ent = page_floor (u64 (ent.base + page_size - 1))

abbrev pub end_addr : Entry → ℕ
end_addr ent = page_floor (top ent)

-- The body of the last loop, for an entry that has a whole page.
unfoldable pub free_entry : Entry → Pmm → Pmm
unfolding free_range
free_entry ent pmm =
    free_range ((end_addr ent - start_addr ent) / page_size) (start_addr ent) (end_addr ent) pmm

-- `continue`: the entry is not usable, or has no whole page.
unfoldable pub skips : Entry → Bool
skips ent = not (is_usable ent) || leb (end_addr ent) (start_addr ent)

-- The last loop; the flag is `set_first_frame`.
unfoldable pub free_usable : List Entry → Bool → Pmm → Pmm
unfolding free_entry
free_usable [] first pmm = pmm
free_usable (ent ∷ rest) first pmm = free_usable rest (if skips ent then first else true) (
    if skips ent
    then pmm
    else free_entry ent (if first then pmm else record pmm { alloc_start_frame = ent.base }))

-- The header with every frame in use. The counter of free frames is a static variable and starts
-- at 0; so does `alloc_start_frame`.
abbrev pub all_used : (hhdm kphys kvirt kernel_end at max_frames : ℕ) → Pmm
all_used hhdm kphys kvirt kernel_end at max_frames = record {
  hhdm_base = hhdm;
  kernel_phys_base = kphys;
  kernel_virt_base = kvirt;
  kernel_phys_end = kernel_end;
  bitmap_phys = at;
  bitmap_bytes = max_frames / 8;
  alloc_start_frame = 0;
  max_frames = max_frames;
  free_frames = 0;
  b_map = replicate (max_frames / 8) 0xFF;
}

unfoldable pub place :
    (hhdm kphys kvirt kernel_end max_mem : ℕ) → List Entry → Boot (Pmm × List Entry)
unfolding place_bitmap free_usable
place hhdm kphys kvirt kernel_end max_mem entries =
    let max_frames = max_mem / page_size in
    let bytes = max_frames / 8 in
    elim (place_bitmap bytes entries) [
      | none ↦ null_bitmap
      | some (at, entries') ↦ ready (
        free_usable entries' false (all_used hhdm kphys kvirt kernel_end at max_frames),
        entries',
      )
    ]

-- The memory map has at least one entry, which is read before the loop.
unfoldable pub init_pmm :
    Option ℕ → Option (ℕ × ℕ) → Option (Entry × List Entry) → Boot (Pmm × List Entry)
unfolding scan_map place
init_pmm none kaddr memmap = kpanic hhdm_bad_response
init_pmm (some hhdm) none memmap = kpanic kaddr_bad_response
init_pmm (some hhdm) (some (kphys, kvirt)) none = kpanic memmap_bad_response
init_pmm (some hhdm) (some (kphys, kvirt)) (some (first, rest)) =
    let (kernel_end, max_mem) = scan_map (first ∷ rest) 0 first.base in
    if kernel_end == 0
    then kpanic bad_kernel_end
    else place hhdm kphys kvirt kernel_end max_mem (first ∷ rest)
