-- ===== src/Heap.antt =====
-- The kernel heap, kernel/mmu/heap.c: the break under dlmalloc, and the calls in front of it.
--
-- `none` is a kernel panic. What dlmalloc, dlrealloc and dlmalloc_trim do is another project's; the
-- three are arguments.
pub mod Laws
pub mod Wrap
mod Tests
use toast_os.Prelude.{
  ℕ, zero, suc, ◌+◌, ◌-◌, ◌*◌, ◌/◌, ◌^◌, Bool, true, false, Option, none, some, ◌==◌, if◌then◌else◌,
  ltb, leb, u64, sub64, not, bit_and, ◌>>=◌,
}
use toast_os.Prelude.Int.{ℤ, ℤ.pos, ℤ.negsuc}
use toast_os.Pmm.{Pmm, pmm_alloc, pmm_free}
use toast_os.Vmm.{Vmm, vmm_map_page, vmm_get_phys, vmm_unmap_page}

pub record Heap : Type 0 where
  pub base_addr : ℕ
  pub brk : ℕ
  pub mapped_end : ℕ
  pub limit : ℕ
  pub flags : ℕ
  pub vmm_ctx : ℕ

-- The kernel heap, none before `init_kheap`, and the address spaces it maps into.
pub record KHeap : Type 0 where
  pub k_heap : Option Heap
  pub vmm : Vmm

-- `(void*)-1`
abbrev pub sbrk_failed : ℕ
sbrk_failed = 2 ^ 64 - 1

abbrev pub page_align_up : ℕ → ℕ
page_align_up x = bit_and (u64 (x + 4095)) (2 ^ 64 - 4096)

-- The loop that maps pages, `n` rounds at most: whether memory sufficed, and `mapped_so_far`.
unfoldable pub grow : (n mapped_so_far need_top ctx flags : ℕ) → Vmm → Option (Bool × ℕ × Vmm)
grow zero mapped_so_far need_top ctx flags k = some (true, mapped_so_far, k)
grow (suc n) mapped_so_far need_top ctx flags k =
    let (phys, pmm) = pmm_alloc k.pmm in
    let k1 = record k { pmm = pmm } in
    elim (ltb mapped_so_far need_top) [
      | false ↦ some (true, mapped_so_far, k)
      | true ↦ elim (phys == 0) [
        | true ↦ some (false, mapped_so_far, k1)
        | false ↦ do
          (ok, k2) ← vmm_map_page k1 ctx mapped_so_far phys flags
          grow n (u64 (mapped_so_far + 4096)) need_top ctx flags k2
      ]
    ]

-- The loop that unmaps pages, `n` rounds at most.
unfoldable pub shrink : (n mapped_top keep_top ctx : ℕ) → Vmm → Option (ℕ × Vmm)
shrink zero mapped_top keep_top ctx k = some (mapped_top, k)
shrink (suc n) mapped_top keep_top ctx k =
    let top = sub64 mapped_top 4096 in
    let phys = vmm_get_phys k ctx top in
    let k1 = if not (phys == 0) then record k { pmm = pmm_free k.pmm phys } else k in
    elim (ltb keep_top mapped_top) [
      | false ↦ some (mapped_top, k)
      | true ↦ do k2 ← vmm_unmap_page k1 ctx top; shrink n top keep_top ctx k2
    ]

-- How many pages lie between two addresses, rounded up: the rounds of the loops.
abbrev pub rounds : ℕ → ℕ → ℕ
rounds from to = (to - from + 4095) / 4096

-- The end of a growth: the new break stands only where memory sufficed.
abbrev pub set_break : KHeap → Heap → (new_brk : ℕ) → Bool × ℕ × Vmm → ℕ × KHeap
set_break s heap new_brk (true, mapped_so_far, k) = (
  heap.brk,
  record s { vmm = k; k_heap = some (record heap { mapped_end = mapped_so_far; brk = new_brk }) },
)
set_break s heap new_brk (false, mapped_so_far, k) =
    (sbrk_failed, record s { vmm = k; k_heap = some (record heap { mapped_end = mapped_so_far }) })

unfoldable pub sys_sbrk_up : KHeap → Heap → (increment : ℕ) → Option (ℕ × KHeap)
unfolding grow
sys_sbrk_up s heap increment =
    let new_brk = u64 (heap.brk + increment) in
    let need_top = page_align_up new_brk in
    let n = rounds heap.mapped_end need_top in
    if ltb heap.limit new_brk then some (sbrk_failed, s) else do
      out ← grow n heap.mapped_end need_top heap.vmm_ctx heap.flags s.vmm
      some (set_break s heap new_brk out)

unfoldable pub sys_sbrk_down : KHeap → Heap → (shrink_by : ℕ) → Option (ℕ × KHeap)
unfolding shrink
sys_sbrk_down s heap shrink_by =
    let new_brk =
      if ltb (sub64 heap.brk heap.base_addr) shrink_by
      then heap.base_addr
      else sub64 heap.brk shrink_by in
    let keep_top = page_align_up new_brk in
    do
      (mapped_top, k) ←
          shrink (rounds keep_top heap.mapped_end) heap.mapped_end keep_top heap.vmm_ctx s.vmm
      some (
        heap.brk,
        record s {
          vmm = k;
          k_heap = some (record heap { mapped_end = mapped_top; brk = new_brk });
        },
      )

unfoldable pub sys_sbrk : KHeap → (increment : ℤ) → Option (ℕ × KHeap)
unfolding sys_sbrk_up sys_sbrk_down
sys_sbrk s increment = elim s.k_heap [
  | none ↦ some (sbrk_failed, s)
  | some heap ↦ elim increment [
    | pos zero ↦ some (heap.brk, s)
    | pos (suc n) ↦ sys_sbrk_up s heap (suc n)
    | negsuc n ↦ sys_sbrk_down s heap (suc n)
  ]
]

abbrev pub kheap_virt_base : ℕ
kheap_virt_base = 0xFFFF900000000000

-- `&g_kernel_ctx` is the context that the heap maps into; the flags are present and writable.
unfoldable pub init_kheap : KHeap → KHeap
init_kheap s = record s {
  k_heap = some (record {
    base_addr = kheap_virt_base;
    brk = kheap_virt_base;
    mapped_end = kheap_virt_base;
    limit = kheap_virt_base + 1024 * 1024 * 64;
    flags = 3;
    vmm_ctx = s.vmm.kernel_ctx;
  });
}

pub heap_is_valid : Option Heap → Bool
heap_is_valid none = false
heap_is_valid (some heap) = not (heap.vmm_ctx == 0)

-- The calls into dlmalloc, with a state `S` of its own.
module _ {S : Type 0} (dlmalloc : S → ℕ → ℕ × S) (dlfree : S → ℕ → S)
    (dlrealloc : S → ℕ → ℕ → ℕ × S) (dlmalloc_trim : S → ℕ → ℕ × S) where
  pub kmalloc : Option Heap → S → (size : ℕ) → ℕ × S
  kmalloc none s size = (0, s)
  kmalloc (some heap) s size = dlmalloc s size

  pub kfree : Option Heap → S → (ptr : ℕ) → S
  kfree none s ptr = s
  kfree (some heap) s ptr = if ptr == 0 then s else dlfree s ptr

  pub krealloc : Option Heap → S → (ptr size : ℕ) → ℕ × S
  krealloc none s ptr size = (0, s)
  krealloc (some heap) s ptr size = dlrealloc s ptr size

  pub kheap_trim : Option Heap → S → (pad : ℕ) → ℕ × S
  kheap_trim none s pad = (0, s)
  kheap_trim (some heap) s pad = dlmalloc_trim s pad
