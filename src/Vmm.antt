-- ===== src/Vmm.antt =====
-- The page tables, kernel/mmu/vmm.c.
--
-- The physical memory is a function: `ram p i` is word `i` of the frame at the physical address `p`.
-- The code reaches it through the direct map, at `p + hhdm`; since both sides of the map are used
-- for nothing else, the model goes by the physical address. A context is its address, and
-- `contexts` has the address of the PML4 that stands in it. The translation cache is not modelled;
-- `none` is a kernel panic.
pub mod Contexts
pub mod Copied
pub mod Filling
pub mod Kernel
pub mod Entries
pub mod Grow
pub mod Leaves
pub mod Mapping
pub mod Paths
pub mod Ranges
pub mod Translate
pub mod Unmap
pub mod Tables
pub mod Users
mod Tests
use toast_os.Prelude.{
  ℕ, zero, suc, ◌+◌, ◌-◌, ◌*◌, ◌/◌, ◌^◌, Bool, true, false, Option, none, some, List, [], ◌∷◌, ◌==◌,
  if◌then◌else◌, ltb, leb, u64, not, ◌&&◌, ◌||◌, bit_and, bit_or, ◌>>=◌,
}
use toast_os.Pmm.{Pmm, pmm_alloc, pmm_free}

abbrev pub pte_user : ℕ
pte_user = 4

abbrev pub pte_nx : ℕ
pte_nx = 2 ^ 63

abbrev pub user_space_end : ℕ
user_space_end = 0x0000800000000000

abbrev pub present : ℕ → Bool
present e = not (bit_and e 1 == 0)

abbrev pub writable : ℕ → Bool
writable e = not (bit_and e 2 == 0)

abbrev pub user : ℕ → Bool
user e = not (bit_and e pte_user == 0)

abbrev pub huge : ℕ → Bool
huge e = not (bit_and e 128 == 0)

-- `e & PTE_FRAME_MASK`
abbrev pub frame_of : ℕ → ℕ
frame_of e = bit_and e 0x000FFFFFFFFFF000

-- `(v_addr >> shift) & 0x1FF`
abbrev pub index : ℕ → ℕ → ℕ
index shift v_addr = bit_and (v_addr / 2 ^ shift) 0x1FF

pub record Vmm : Type 0 where
  pub pmm : Pmm
  pub ram : ℕ → ℕ → ℕ
  pub contexts : ℕ → ℕ
  pub kernel_ctx : ℕ
  pub nx_enabled : Bool
  pub cr3 : ℕ
  -- The calls of `kfree`, latest first.
  pub freed : List ℕ

abbrev pub store : (ℕ → ℕ → ℕ) → (p i e : ℕ) → ℕ → ℕ → ℕ
store ram p i e q j = if (q == p) && (j == i) then e else ram q j

-- `memset(page, 0, PAGE_SIZE)`
abbrev pub zero_page : (ℕ → ℕ → ℕ) → ℕ → ℕ → ℕ → ℕ
zero_page ram p q j = if q == p then 0 else ram q j

unfoldable pub vmm_nx_flag : Vmm → ℕ
vmm_nx_flag k = if k.nx_enabled then pte_nx else 0

unfoldable pub vmm_switch_context : Vmm → ℕ → Vmm
vmm_switch_context k ctx = record k { cr3 = k.contexts ctx }

-- The entry for a new table: `phys | PTE_PRESENT | PTE_WRITE | (flags & PTE_USER)`.
abbrev pub table_entry : ℕ → ℕ → ℕ
table_entry phys flags = bit_or (bit_or (bit_or phys 1) 2) (bit_and flags pte_user)

abbrev pub page_entry : ℕ → ℕ → ℕ
page_entry p_addr flags = bit_or (bit_or (frame_of p_addr) 1) flags

-- The table that an entry leads to, or NULL.
unfoldable pub get_or_alloc_table : Vmm → (table idx flags : ℕ) → Option (Option ℕ × Vmm)
get_or_alloc_table k table idx flags =
    let e = k.ram table idx in
    let e' = bit_or e pte_user in
    let (phys, pmm) = pmm_alloc k.pmm in
    if present e
    then (if huge e
        then none
        else if user flags && not (user e)
        then some (some (frame_of e'), record k { ram = store k.ram table idx e' })
        else some (some (frame_of e), k))
    else if phys == 0
    then some (none, record k { pmm = pmm })
    else some (
      some phys,
      record k { pmm = pmm; ram = store (zero_page k.ram phys) table idx (table_entry phys flags) },
    )

-- `if (!table) return -1;`
abbrev pub with_table :
    Option (Option ℕ × Vmm) → (ℕ → Vmm → Option (Bool × Vmm)) → Option (Bool × Vmm)
with_table none f = none
with_table (some (none, k)) f = some (false, k)
with_table (some (some table, k)) f = f table k

-- `true` stands for the result 0, `false` for -1.
unfoldable pub vmm_map_page : Vmm → (ctx v_addr p_addr flags : ℕ) → Option (Bool × Vmm)
vmm_map_page k ctx v_addr p_addr flags =
    if user flags && leb user_space_end v_addr
    then some (false, k)
    else with_table (get_or_alloc_table k (k.contexts ctx) (index 39 v_addr) flags) (λ pdpt k1.
      with_table (get_or_alloc_table k1 pdpt (index 30 v_addr) flags) (λ pd k2.
        with_table (get_or_alloc_table k2 pd (index 21 v_addr) flags) (λ pt k3.
          some (
            true,
            record k3 { ram = store k3.ram pt (index 12 v_addr) (page_entry p_addr flags) },
          ))))

unfoldable pub vmm_get_phys : Vmm → (ctx v_addr : ℕ) → ℕ
vmm_get_phys k ctx v_addr =
    let e4 = k.ram (k.contexts ctx) (index 39 v_addr) in
    let e3 = k.ram (frame_of e4) (index 30 v_addr) in
    let e2 = k.ram (frame_of e3) (index 21 v_addr) in
    let e1 = k.ram (frame_of e2) (index 12 v_addr) in
    if not (present e4)
    then 0
    else if not (present e3)
    then 0
    else if huge e3
    then bit_or (frame_of e3) (bit_and v_addr 0x3FFFFFFF)
    else if not (present e2)
    then 0
    else if huge e2
    then bit_or (frame_of e2) (bit_and v_addr 0x1FFFFF)
    else if not (present e1)
    then 0
    else bit_or (frame_of e1) (bit_and v_addr 0xFFF)

unfoldable pub vmm_unmap_page : Vmm → (ctx v_addr : ℕ) → Option Vmm
vmm_unmap_page k ctx v_addr =
    let e4 = k.ram (k.contexts ctx) (index 39 v_addr) in
    let e3 = k.ram (frame_of e4) (index 30 v_addr) in
    let e2 = k.ram (frame_of e3) (index 21 v_addr) in
    let pt = frame_of e2 in
    if not (present e4)
    then some k
    else if not (present e3)
    then some k
    else if huge e3
    then none
    else if not (present e2)
    then some k
    else if huge e2
    then none
    else if not (present (k.ram pt (index 12 v_addr)))
    then some k
    else some (record k { ram = store k.ram pt (index 12 v_addr) 0 })

-- The slots 256 to 511 of another PML4 over a zeroed one.
abbrev pub kernel_half : (ℕ → ℕ → ℕ) → (from to : ℕ) → ℕ → ℕ → ℕ
kernel_half ram from to q j = if (q == to) && (leb 256 j && ltb j 512) then ram from j else ram q j

-- `context` is what `kmalloc` returns; the answer is the context, 0 on failure.
unfoldable pub vmm_create_context : Vmm → (context : ℕ) → ℕ × Vmm
vmm_create_context k context =
    let (phys, pmm) = pmm_alloc k.pmm in
    if context == 0
    then (0, k)
    else if phys == 0
    then (0, record k { pmm = pmm; freed = context ∷ k.freed })
    else (
      context,
      record k {
        pmm = pmm;
        ram = kernel_half (zero_page k.ram phys) (k.contexts k.kernel_ctx) phys;
        contexts = λ c. if c == context then phys else k.contexts c;
      },
    )

-- The empty slots of the kernel half get a zeroed PDPT each, `n` slots from `i` on.
unfoldable pub fill_slots : (n i pml4 : ℕ) → Vmm → Option Vmm
fill_slots zero i pml4 k = some k
fill_slots (suc n) i pml4 k =
    let (phys, pmm) = pmm_alloc k.pmm in
    let slot = bit_or (bit_or phys 1) 2 in
    let k1 =
      if present (k.ram pml4 i)
      then k
      else record k { pmm = pmm; ram = store (zero_page k.ram phys) pml4 i slot } in
    let rest = fill_slots n (i + 1) pml4 k1 in
    if not (present (k.ram pml4 i)) && (phys == 0) then none else rest

-- `nx` is whether the processor has the NX bit. (A PML4 at address 0, for want of memory, is used
-- like any other.)
unfoldable pub init_vmm : Vmm → (nx : Bool) → Option Vmm
unfolding fill_slots vmm_switch_context
init_vmm k nx = do
  let limine_pml4 = frame_of k.cr3
  let (phys, pmm) = pmm_alloc k.pmm
  k1 ← fill_slots 256 256 phys (record k {
    pmm = pmm;
    nx_enabled = if nx then true else k.nx_enabled;
    ram = kernel_half (zero_page k.ram phys) limine_pml4 phys;
  })
  some (
      vmm_switch_context
        (record k1 { contexts = λ c. if c == k1.kernel_ctx then phys else k1.contexts c })
        k1.kernel_ctx)

-- `free_table` over `n` entries from `i` on, given what frees a table of the next level.
unfoldable pub free_entries : (Vmm → ℕ → Vmm) → Bool → (n i table : ℕ) → Vmm → Vmm
free_entries free_next leaf zero i table k = k
free_entries free_next leaf (suc n) i table k =
    let e = k.ram table i in
    let k1 =
      if not (present e)
      then k
      else if leaf
      then record k { pmm = pmm_free k.pmm (frame_of e) }
      else if not (huge e)
      then free_next k (frame_of e)
      else k in
    free_entries free_next leaf n (i + 1) table k1

-- Level 1 is a page table, 3 a PDPT.
unfoldable pub free_table : (level : ℕ) → Vmm → (table : ℕ) → Vmm
unfolding free_entries
free_table zero k table = k
free_table (suc level) k table =
    let k1 = free_entries (free_table level) (level == 0) 512 0 table k in
    record k1 { pmm = pmm_free k1.pmm table }

-- The slots 0 to 255 of a PML4.
unfoldable pub free_user_half : (n i pml4 : ℕ) → Vmm → Vmm
unfolding free_table
free_user_half zero i pml4 k = k
free_user_half (suc n) i pml4 k =
    let e = k.ram pml4 i in
    free_user_half n (i + 1) pml4 (if present e then free_table 3 k (frame_of e) else k)

unfoldable pub vmm_destroy_context : Vmm → (ctx : ℕ) → Vmm
unfolding free_user_half vmm_switch_context
vmm_destroy_context k ctx =
    let pml4 = k.contexts ctx in
    let k1 = if frame_of k.cr3 == pml4 then vmm_switch_context k k.kernel_ctx else k in
    let k2 = free_user_half 256 0 pml4 k1 in
    if (ctx == 0) || (ctx == k.kernel_ctx)
    then k
    else record k2 { pmm = pmm_free k2.pmm pml4; freed = ctx ∷ k2.freed }
