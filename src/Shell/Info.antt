-- ===== src/Shell/Info.antt =====
-- The commands of kernel/shell/tsh.c that report on the machine: meminfo, memmap and fetch.
use toast_os.Prelude.{
  ℕ, ◌+◌, ◌*◌, ◌/◌, ◌%◌, Option, none, some, List, [], ◌∷◌, ◌++◌, ◌==◌, if◌then◌else◌, ltb, u64,
  sub64, codes, get_or,
}
use toast_os.Timer.{Timer, get_uptime_seconds}
use toast_os.Pmm.{Pmm, page_size}
use toast_os.Pmm.Init.{Entry, usable}
use toast_os.Vmm.{Vmm}
use toast_os.Heap.{Heap, KHeap, heap_is_valid}
use toast_os.Stdio.Calls.{Call, put, format, number, string}

abbrev pub mib : ℕ
mib = 1024 * 1024

abbrev pub total_mib : Pmm → ℕ
total_mib pmm = u64 (pmm.max_frames * page_size) / mib

abbrev pub free_mib : Pmm → ℕ
free_mib pmm = u64 (pmm.free_frames * page_size) / mib

abbrev pub used_mib : Pmm → ℕ
used_mib pmm = sub64 (total_mib pmm) (free_mib pmm)

-- `bitmap` is the address in `pmm->b_map`.
unfoldable pub pmm_lines : Pmm → (bitmap : ℕ) → List Call
pmm_lines pmm bitmap =
    put (codes "==================== PMM ====================\n")
    ∷ format (codes "  HHDM base:              0x%016llx\n") (number pmm.hhdm_base ∷ [])
    ∷ format (codes "  Kernel phys base:       0x%016llx\n") (number pmm.kernel_phys_base ∷ [])
    ∷ format (codes "  Kernel virt base:       0x%016llx\n") (number pmm.kernel_virt_base ∷ [])
    ∷ format (codes "  Kernel phys end:        0x%016llx\n") (number pmm.kernel_phys_end ∷ [])
    ∷ put (codes "  ---------------------------------------------\n")
    ∷ format (codes "  Bitmap phys addr:       0x%016llx\n") (number pmm.bitmap_phys ∷ [])
    ∷ format (codes "  Bitmap virt ptr:        0x%016llx\n") (number bitmap ∷ [])
    ∷ format (codes "  Bitmap size:            %lu Bytes\n") (number pmm.bitmap_bytes ∷ [])
    ∷ put (codes "  ---------------------------------------------\n")
    ∷ format (codes "  First alloc frame:      0x%016llx\n") (number pmm.alloc_start_frame ∷ [])
    ∷ format (codes "  Total frames:           %llu\n") (number pmm.max_frames ∷ [])
    ∷ format (codes "  Free frames:            %llu\n") (number pmm.free_frames ∷ [])
    ∷ format (codes "  Memory:                 %llu MiB total  %llu MiB used  %llu MiB free\n")
        (number (total_mib pmm) ∷ number (used_mib pmm) ∷ number (free_mib pmm) ∷ [])
    ∷ put (codes "==============================================\n\n")
    ∷ []

unfoldable pub vmm_lines : Vmm → List Call
vmm_lines v =
    put (codes "==================== VMM ====================\n")
    ∷ format (codes "  Active PML4 (CR3):      0x%016llx\n") (number (v.contexts v.kernel_ctx) ∷ [])
    ∷ put (codes "  Page table levels:      4  (PML4 -> PDPT -> PD -> PT)\n")
    ∷ put (codes "  Page size:              4 KiB\n")
    ∷ put (codes "  Table walk:             HHDM\n")
    ∷ put (codes "==============================================\n\n")
    ∷ []

-- A number of bytes, and in a larger unit.
abbrev pub two_sizes : (fmt : List ℕ) → (bytes unit : ℕ) → Call
two_sizes fmt bytes unit = format fmt (number bytes ∷ number (bytes / unit) ∷ [])

-- The lines on a heap in use.
unfoldable pub heap_report : Heap → List Call
heap_report heap =
    format (codes "  Heap Base Address:      0x%016lx\n") (number heap.base_addr ∷ [])
    ∷ format (codes "  Current Break (brk):    0x%016lx\n") (number heap.brk ∷ [])
    ∷ format (codes "  Mapped/Backed Up To:    0x%016lx\n") (number heap.mapped_end ∷ [])
    ∷ format (codes "  Ultimate Virtual Max:   0x%016lx\n") (number heap.limit ∷ [])
    ∷ put (codes "  ---------------------------------------------\n")
    ∷ two_sizes (codes "  Logical Used Size:      %lu bytes  (%lu KiB)\n")
        (sub64 heap.brk heap.base_addr) 1024
    ∷ two_sizes (codes "  Physically Backed:      %lu bytes  (%lu KiB)\n")
        (sub64 heap.mapped_end heap.base_addr) 1024
    ∷ two_sizes (codes "  Max Scale Boundary:     %lu bytes  (%lu MiB)\n")
        (sub64 heap.limit heap.base_addr) mib
    ∷ two_sizes (codes "  Remaining Headroom:     %lu bytes  (%lu MiB)\n")
        (sub64 heap.limit heap.brk) mib
    ∷ []

unfoldable pub heap_lines : Option Heap → List Call
unfolding heap_report
heap_lines none = put (codes "  [not initialised]\n") ∷ []
heap_lines (some heap) =
    if heap_is_valid (some heap) then heap_report heap else put (codes "  [not initialised]\n") ∷ []

-- `get_pmm_header` returns the address of a static variable, which is not NULL.
unfoldable pub cmd_meminfo : KHeap → (bitmap : ℕ) → List Call
unfolding pmm_lines vmm_lines heap_lines
cmd_meminfo k bitmap =
    put (codes "===============\n")
    ∷ put (codes "= ToastOS MMU =\n")
    ∷ put (codes "===============\n\n")
    ∷ (pmm_lines k.vmm.pmm bitmap
        ++ (vmm_lines k.vmm
            ++ (put (codes "================= Kernel Heap (sbrk) ================\n")
                ∷ (heap_lines k.k_heap
                    ++ put (codes "=======================================================\n")
                      ∷ []))))

pub memmap_type_str : (typ : ℕ) → List ℕ
memmap_type_str typ =
    if typ == 0
    then codes "Usable"
    else if typ == 1
    then codes "Reserved"
    else if typ == 2
    then codes "ACPI Reclaimable"
    else if typ == 3
    then codes "ACPI NVS"
    else if typ == 4
    then codes "Bad Memory"
    else if typ == 5
    then codes "Bootloader Reclaimable"
    else if typ == 6
    then codes "Kernel and Modules"
    else if typ == 7
    then codes "Framebuffer"
    else codes "Unknown"

-- The size of an entry in the larger unit that it has one of.
abbrev pub size_call : Entry → Call
size_call ent =
    if ltb 0 (ent.len / mib)
    then format (codes "  (%llu MiB)\n") (number (ent.len / mib) ∷ [])
    else format (codes "  (%llu KiB)\n") (number (ent.len % mib / 1024) ∷ [])

-- The two calls of `printf` for an entry.
unfoldable pub memmap_line : (i : ℕ) → Entry → List Call
unfolding memmap_type_str
memmap_line i ent =
    format (codes " [%llu] 0x%016llx   0x%016llx   %s")
      (number i ∷ number ent.base ∷ number ent.len ∷ string (memmap_type_str ent.typ) ∷ [])
    ∷ size_call ent
    ∷ []

-- The loop over the entries from `i` on: what it prints, and `total_usable` after it.
unfoldable pub memmap_lines : (i total : ℕ) → List Entry → List Call × ℕ
unfolding memmap_line
memmap_lines i total [] = ([], total)
memmap_lines i total (ent ∷ ents) =
    let (lines, sum) =
      memmap_lines (i + 1) (if ent.typ == usable then u64 (total + ent.len) else total) ents in
    (memmap_line i ent ++ lines, sum)

-- `none` is a response of NULL.
unfoldable pub cmd_memmap : Option (List Entry) → List Call
unfolding memmap_lines
cmd_memmap none = put (codes "[memmap] no Limine memmap response\n") ∷ []
cmd_memmap (some ents) =
    let bar = codes "========================================================\n" in
    let (lines, total) = memmap_lines 0 0 ents in
    (put bar
      ∷ put (codes " #   Base                 Length               Type\n")
      ∷ put bar
      ∷ (lines
          ++ put bar
            ∷ format (codes " Total usable: %llu MiB (%llu bytes)\n")
                (number (total / mib) ∷ number total ∷ [])
            ∷ put bar
            ∷ []))

-- `cpu_name` is the text that the CPUID instruction gives, up to its NUL.
unfoldable pub cmd_fetch : Timer → Pmm → (cpu_name : List ℕ) → List Call
cmd_fetch timer pmm cpu_name =
    let uptime = get_uptime_seconds timer in
    let cpu = if get_or cpu_name 0 0 == 0 then codes "Unknown Processor" else cpu_name in
    (put (codes "\n")
      ∷ format (codes " \u{1b}[36muser\u{1b}[0m@\u{1b}[36mToastOS\u{1b}[0m\n") []
      ∷ format (codes " -------------------\n") []
      ∷ format (codes " \u{1b}[33mOS\u{1b}[0m: ToastOS x86_64\n") []
      ∷ format (codes " \u{1b}[33mUptime\u{1b}[0m: %llu mins, %llu secs\n")
          (number (uptime / 60) ∷ number (uptime % 60) ∷ [])
      ∷ format (codes " \u{1b}[33mCPU\u{1b}[0m: %s\n") (string cpu ∷ [])
      ∷ format (codes " \u{1b}[33mMemory\u{1b}[0m: %llu MiB / %llu MiB\n")
          (number (used_mib pmm) ∷ number (total_mib pmm) ∷ [])
      ∷ format (codes "\n") []
      ∷ format
          (codes
            " \u{1b}[41m   \u{1b}[42m   \u{1b}[43m   \u{1b}[44m   \u{1b}[45m   \u{1b}[46m   \u{1b}[47m   \u{1b}[0m\n")
          []
      ∷ format (codes "\n") []
      ∷ [])
