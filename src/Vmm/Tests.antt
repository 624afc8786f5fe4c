-- ===== src/Vmm/Tests.antt =====
-- The theorems on kernel/mmu/vmm.c at an empty PML4 and seven free frames.
use mathlib.Core.Path.{subst}
use toast_os.Prelude.{
  ℕ, ◌/◌, ◌%◌, ◌≤◌, ◌<◌, ◌≡◌, ◌≢◌, refl, sym, Bool, true, false, Option, none, some, List, [], ◌∷◌,
  arith, if◌then◌else◌, ltb, length, replicate,
}
use toast_os.Pmm.{Pmm, pmm_alloc, alloc_frame, find_frame, find_bit}
use toast_os.Pmm.Frames
use toast_os.Vmm.{
  Vmm, user_space_end, index, page_entry, get_or_alloc_table, vmm_map_page, vmm_get_phys,
  vmm_unmap_page, vmm_create_context, init_vmm, fill_slots,
}
use toast_os.Vmm.Users.{indices, vmm_user_range_ok}
use toast_os.Vmm.Tables.{table_at, look, IsTree}
use toast_os.Vmm.Mapping.{Mapped, vmm_map_page-Mapped}
use toast_os.Vmm.Translate.{phys_of, maps_page, view, vmm_get_phys-vmm_map_page}
use toast_os.Vmm.Unmap.{vmm_get_phys-vmm_unmap_page}
use toast_os.Vmm.Contexts.{vmm_get_phys-vmm_create_context}
use toast_os.Vmm.Kernel.{IsKernelSpace, init_vmm-IsKernelSpace}
use toast_os.Vmm.Ranges.{Granted, vmm_user_range_ok-Granted}

-- Frames 9 to 15 are free.
abbrev seven_free : Pmm
seven_free = record {
  hhdm_base = 0;
  kernel_phys_base = 0;
  kernel_virt_base = 0;
  kernel_phys_end = 0;
  bitmap_phys = 4096;
  bitmap_bytes = 2;
  alloc_start_frame = 2;
  max_frames = 16;
  free_frames = 7;
  b_map = 255 ∷ 1 ∷ [];
}

-- The kernel's context is at 64, and its PML4 at 4096.
abbrev blank : Vmm
blank = record {
  pmm = seven_free;
  ram = λ p i. 0;
  contexts = λ c. 4096;
  kernel_ctx = 64;
  nx_enabled = true;
  cr3 = 4096;
  freed = [];
}

no_table : (i : ℕ) (path : List ℕ) → table_at (λ p i. 0) 4096 (i ∷ path) ≡ none
no_table i [] = refl
no_table i (j ∷ path) = rw (no_table j path) refl

blank-IsTree : IsTree (λ t. []) 4096 blank
blank-IsTree = record {
  frames = record {
    sized = refl;
    bytes = (omega arith, (omega arith, tt));
    fits = omega arith;
    counted = refl;
  };
  small = omega arith;
  owned = owned;
  used = used;
  no_huge_root = λ i e. refl;
}
  where
    owned :
        (path : List ℕ) (t : ℕ)
        → length path ≤ 3
        → table_at (λ p i. 0) 4096 path ≡ some t
        → [] ≡ path
    owned [] t le e = refl
    owned (i ∷ path) t le e = cc (no_table i path, e)

    used :
        (path : List ℕ) (t : ℕ)
        → length path ≤ 3
        → table_at (λ p i. 0) 4096 path ≡ some t
        → Frames.Used seven_free (t / 4096) × (t % 4096 ≡ 0)
    used [] t le e = let at : 4096 ≡ t = cc e in rw (sym at) (refl, refl)
    used (i ∷ path) t le e = cc (no_table i path, e)

-- Page 5 is mapped to the frame at 0x8000, for the user to write.
abbrev mapped_page : Option (Bool × Vmm) → Vmm
mapped_page none = blank
mapped_page (some (b, k)) = k

abbrev unmapped_page : Option Vmm → Vmm
unmapped_page none = blank
unmapped_page (some k) = k

one_page : Vmm
unfolding pmm_alloc alloc_frame find_frame find_bit vmm_map_page get_or_alloc_table
one_page = mapped_page (vmm_map_page blank 64 0x5000 0x8000 7)

no_page : Vmm
unfolding one_page vmm_unmap_page
no_page = unmapped_page (vmm_unmap_page one_page 64 0x5000)

map_one : vmm_map_page blank 64 0x5000 0x8000 7 ≡ some (true, one_page)
unfolding one_page
map_one = refl

unmap_one : vmm_unmap_page one_page 64 0x5000 ≡ some no_page
unfolding no_page
unmap_one = refl

range_one : vmm_user_range_ok one_page 64 0x5100 0x200 true ≡ true
unfolding one_page vmm_user_range_ok
range_one = refl

vmm_map_page-Mapped_example :
    Mapped 4096 blank
      (indices 0x5000)
      (page_entry 0x8000 7)
      false
      3
      (vmm_map_page blank 64 0x5000 0x8000 7)
vmm_map_page-Mapped_example = vmm_map_page-Mapped blank 64 0x5000 0x8000 7 blank-IsTree refl

vmm_get_phys-vmm_map_page_example : vmm_get_phys one_page 64 0x5123 ≡ 0x8123
vmm_get_phys-vmm_map_page_example =
    vmm_get_phys-vmm_map_page blank one_page 64 0x5000 0x8000 7 blank-IsTree refl map_one 0x5123

one_page-IsTree : (own : ℕ → List ℕ) × IsTree own (one_page.contexts 64) one_page
one_page-IsTree =
    let (own, tree, c, look) =
      maps_page (vmm_map_page-Mapped blank 64 0x5000 0x8000 7 blank-IsTree refl) map_one in
    (own, subst (λ f. IsTree own (f 64) one_page) (sym c) tree)

vmm_get_phys-vmm_unmap_page_example : vmm_get_phys no_page 64 0x5123 ≡ 0
vmm_get_phys-vmm_unmap_page_example =
    vmm_get_phys-vmm_unmap_page one_page no_page 64 0x5000 (one_page-IsTree.1) unmap_one 0x5123

vmm_user_range_ok-Granted_example :
    (◌≢◌ {A = ℕ} 64 0) × (0x5200 < user_space_end) × Granted (view one_page 64 0x5200) true
vmm_user_range_ok-Granted_example =
    vmm_user_range_ok-Granted one_page 64 0x5100 0x200 0x5200 true range_one (omega arith)
      (omega arith)

memory : (pmm_alloc blank.pmm).0 ≢ 0
unfolding pmm_alloc alloc_frame find_frame find_bit
memory e = omega (arith, e, first_free)
  where
    first_free : (pmm_alloc seven_free).0 ≡ 0x9000
    first_free = refl

vmm_get_phys-vmm_create_context_example :
    let (ctx, k) = vmm_create_context blank 128 in
    (ctx ≡ 128)
    × (vmm_get_phys k ctx 0x5000
        ≡ (if ltb (index 39 0x5000) 256 then 0 else vmm_get_phys blank 64 0x5000))
vmm_get_phys-vmm_create_context_example =
    vmm_get_phys-vmm_create_context blank 128 blank-IsTree (λ e. omega (arith, e)) memory 0x5000

-- Frames 9 to 271 are free, as many as the kernel half takes and a few more.
abbrev roomy : Vmm
roomy = record blank {
  pmm = record seven_free {
    bitmap_bytes = 34;
    max_frames = 272;
    free_frames = 263;
    b_map = 255 ∷ 1 ∷ replicate 32 0;
  };
}

roomy-IsTree : IsTree (λ t. []) 4096 roomy
roomy-IsTree = record {
  frames = record { sized = refl; bytes = omega arith; fits = omega arith; counted = refl };
  small = omega arith;
  owned = blank-IsTree.owned;
  used = λ path t le e. blank_used path t e;
  no_huge_root = λ i e. refl;
}
  where
    blank_used :
        (path : List ℕ) (t : ℕ)
        → table_at (λ p i. 0) 4096 path ≡ some t
        → Frames.Used roomy.pmm (t / 4096) × (t % 4096 ≡ 0)
    blank_used [] t e = let at : 4096 ≡ t = cc e in rw (sym at) (refl, refl)
    blank_used (i ∷ path) t e = cc (no_table i path, e)

booted : Vmm
unfolding init_vmm fill_slots pmm_alloc alloc_frame find_frame find_bit
booted = unmapped_page (init_vmm roomy true)

boot : init_vmm roomy true ≡ some booted
unfolding booted
boot = refl

first_frame : (pmm_alloc roomy.pmm).0 ≡ 0x9000
unfolding pmm_alloc alloc_frame find_frame find_bit
first_frame = refl

roomy_memory : (pmm_alloc roomy.pmm).0 ≢ 0
roomy_memory e = omega (arith, first_frame, e)

init_vmm-IsKernelSpace_example :
    IsKernelSpace (λ w. phys_of (look (λ p i. 0) 4096 (indices w)) w) booted
init_vmm-IsKernelSpace_example =
    init_vmm-IsKernelSpace (λ t. []) roomy booted true roomy-IsTree roomy_memory boot
