-- ===== src/Boot/Space.antt =====
-- What the start of the kernel leaves of the memory: the kernel's address space and its heap.
use toast_os.Prelude.{
  ℕ, ◌<◌, ◌*◌, ◌/◌, true, All, ◌≡◌, ◌≢◌, refl, ◌∙◌, ap, Bool, Option, none, some, Option-cases,
  List, [], ◌∷◌, inl, inr, arith, codes,
}
use mathlib.Core.Path.{subst}
use toast_os.Pmm.{Pmm, pmm_alloc}
use toast_os.Pmm.Init.{Entry, Boot, init_pmm}
use toast_os.Pmm.Frames
use toast_os.Pmm.Reserve.{Fits, covered}
use toast_os.Pmm.Placing.{Disjoint, highest}
use toast_os.Pmm.Counted.{init_pmm-IsValid}
use toast_os.Vmm.{Vmm, frame_of, init_vmm}
use toast_os.Vmm.Users.{indices}
use toast_os.Vmm.Tables.{look, IsTree}
use toast_os.Vmm.Translate.{phys_of}
use toast_os.Vmm.Kernel.{IsKernelSpace, init_vmm-IsKernelSpace}
use toast_os.Serial.{debug_print}
use toast_os.Rtc.{init_rtc}
use toast_os.Heap.{Heap, KHeap, init_kheap}
use toast_os.Heap.Laws.{IsHeap}
use toast_os.Boot.{
  Loader, Machine, Parts, start, start_on, init_parts, init_memory, memory_of_boot, boots,
  LimineFramebuffer,
}

-- The memory map, and the number of frames that its bitmap has.
abbrev pub regions : Option (Entry × List Entry) → List Entry
regions none = []
regions (some (first, rest)) = first ∷ rest

abbrev pub frames_of : Option (Entry × List Entry) → ℕ
frames_of none = 0
frames_of (some map) = highest map / 4096 / 8 * 8

-- The regions of the memory map do not wrap, no frame lies whole in two usable ones, and those that
-- lie in one have a bit in the bitmap. With the allocator in order, the page tables that the boot
-- loader left in force are a tree of frames in use; and one frame is free.
pub record Loaded (own : ℕ → List ℕ) (loader : Loader) (v : Vmm) : Type 0 where
  pub fits : All Fits (regions loader.memmap)
  pub disjoint : Disjoint (regions loader.memmap)
  pub inside : (g : ℕ) → covered g (regions loader.memmap) ≡ true → g < frames_of loader.memmap
  pub tree :
      (pmm : Pmm) (left : List Entry)
      → init_pmm loader.hhdm loader.kaddr loader.memmap ≡ Boot.ready (pmm, left)
      → Frames.IsValid pmm
      → IsTree own (frame_of v.cr3) (record v { pmm = pmm })
  pub memory :
      (pmm : Pmm) (left : List Entry)
      → init_pmm loader.hhdm loader.kaddr loader.memmap ≡ Boot.ready (pmm, left)
      → (pmm_alloc pmm).0 ≢ 0

-- The kernel has an address space of its own, and a heap in order that maps into it.
pub record HasMemory (before : ℕ → ℕ) (s : KHeap) : Type 0 where
  pub space : IsKernelSpace before s.vmm
  pub heap : Heap
  pub has_heap : s.k_heap ≡ some heap
  pub in_order : IsHeap heap
  pub own_context : heap.vmm_ctx ≡ s.vmm.kernel_ctx

ready-IsValid :
    (hhdm : Option ℕ) (kaddr : Option (ℕ × ℕ)) (memmap : Option (Entry × List Entry)) {pmm : Pmm}
    → {left : List Entry} → init_pmm hhdm kaddr memmap ≡ Boot.ready (pmm, left)
    → All Fits (regions memmap)
    → Disjoint (regions memmap)
    → ((g : ℕ) → covered g (regions memmap) ≡ true → g < frames_of memmap)
    → Frames.IsValid pmm
unfolding init_pmm
ready-IsValid none kaddr memmap e fits disjoint inside = cc
ready-IsValid (some hhdm) none memmap e fits disjoint inside = cc
ready-IsValid (some hhdm) (some kaddr) none e fits disjoint inside = cc
ready-IsValid (some hhdm) (some kaddr) (some (first, rest)) e fits disjoint inside =
    init_pmm-IsValid hhdm kaddr first rest e fits disjoint inside

init_kheap-HasMemory :
    (before : ℕ → ℕ) (v : Vmm)
    → IsKernelSpace before v
    → HasMemory before (init_kheap (record { k_heap = none; vmm = v }))
unfolding init_kheap
init_kheap-HasMemory before v space = record {
  space = space;
  heap = _;
  has_heap = refl;
  in_order = record {
    base_aligned = refl;
    end_aligned = refl;
    limit_aligned = refl;
    above_base = omega arith;
    mapped = omega arith;
    below_limit = omega arith;
    room = omega arith;
  };
  own_context = refl;
}

-- What the boot loader's page tables make of an address.
abbrev pub loader_phys : Vmm → ℕ → ℕ
loader_phys v w = phys_of (look v.ram (frame_of v.cr3) (indices w)) w

module _ (own : ℕ → List ℕ) (loader : Loader) (v : Vmm) (nx : Bool)
    (loaded : Loaded own loader v) where
  memory_of_boot-HasMemory :
      (b : Boot (Pmm × List Entry)) (s : KHeap)
      → init_pmm loader.hhdm loader.kaddr loader.memmap ≡ b
      → memory_of_boot b v nx ≡ some s
      → HasMemory (loader_phys v) s
  unfolding memory_of_boot
  memory_of_boot-HasMemory (Boot.kpanic reason) s e h = cc
  memory_of_boot-HasMemory Boot.null_bitmap s e h = cc
  memory_of_boot-HasMemory (Boot.ready (pmm, left)) s e h =
      elim (Option-cases (init_vmm (record v { pmm = pmm }) nx)) [
        | inl none' ↦ cc (rw none' at h)
        | inr (v1, done) ↦
            let valid =
              ready-IsValid loader.hhdm loader.kaddr loader.memmap e loaded.fits loaded.disjoint
                loaded.inside in
            let space =
              init_vmm-IsKernelSpace own (record v { pmm = pmm }) v1 nx
                (loaded.tree pmm left e valid) (loaded.memory pmm left e) done in
            let same : init_kheap (record { k_heap = none; vmm = v1 }) ≡ s = cc (rw done at h) in
            subst (HasMemory (loader_phys v)) same (init_kheap-HasMemory (loader_phys v) v1 space)
      ]

  init_memory-HasMemory :
      (s : KHeap) → init_memory loader v nx ≡ some s → HasMemory (loader_phys v) s
  unfolding init_memory
  init_memory-HasMemory s h =
      memory_of_boot-HasMemory (init_pmm loader.hhdm loader.kaddr loader.memmap) s refl h

abbrev kheap_of : Option Parts → Option KHeap
kheap_of none = none
kheap_of (some s) = some s.kheap

init_parts-kheap :
    (loader : Loader) (m : Machine) (s s' : Parts) (fb : LimineFramebuffer)
    → init_parts loader m s fb ≡ some s'
    → init_memory loader s.kheap.vmm m.nx ≡ some s'.kheap
unfolding init_parts
init_parts-kheap loader m s s' fb e =
    elim (Option-cases
      (debug_print m.line m.line_waits (codes "\n[Hello from the 64 bit serial port!]\n") 0)) [
        | inl silent ↦ cc (rw silent at e)
        | inr ((sent, count), said) ↦
            elim (Option-cases (init_rtc m.cmos m.rtc_waits m.rtc_passes 0)) [
              | inl waits ↦ cc (rw (said, waits) at e)
              | inr (epoch, read) ↦ elim (Option-cases (init_memory loader s.kheap.vmm m.nx)) [
                | inl none' ↦ cc (rw (said, read, none') at e)
                | inr (kheap, memory) ↦ memory ∙ ap kheap_of (rw (said, read, memory) at e)
              ]
            ]
      ]

start_on-HasMemory :
    (own : ℕ → List ℕ) (loader : Loader) (m : Machine) (s s' : Parts)
    → (framebuffers : Option (List LimineFramebuffer)) → Loaded own loader s.kheap.vmm
    → start_on loader m s framebuffers ≡ boots s'
    → HasMemory (loader_phys s.kheap.vmm) s'.kheap
unfolding start_on
start_on-HasMemory own loader m s s' none loaded e = cc
start_on-HasMemory own loader m s s' (some []) loaded e = cc
start_on-HasMemory own loader m s s' (some (fb ∷ rest)) loaded e =
    elim (Option-cases (init_parts loader m s fb)) [
      | inl none' ↦ cc (rw none' at e)
      | inr (s1, done) ↦
          let same : s1 ≡ s' = cc (rw done at e) in
          init_memory-HasMemory own loader s.kheap.vmm m.nx loaded s'.kheap
            (init_parts-kheap loader m s s' fb (done ∙ ap some same))
    ]

-- Where the regions of the memory map do not wrap, no frame lies whole in two usable ones, and
-- each frame that lies in one is below the highest address rounded down to eight frames; where the
-- boot loader's page tables form a tree of frames in use, granted that the allocator is in order;
-- and where memory is left: a start that comes to init_multitasking leaves the kernel an address
-- space of its own, in force, that translates the kernel half as the boot loader's tables did and
-- nothing else, and with a table in every slot of that half; and a heap whose bounds are in order,
-- that maps into that address space.
pub start-HasMemory :
    (own : ℕ → List ℕ) (loader : Loader) (m : Machine) (s s' : Parts)
    → Loaded own loader s.kheap.vmm
    → start loader m s ≡ boots s'
    → HasMemory (loader_phys s.kheap.vmm) s'.kheap
unfolding start
start-HasMemory own loader m s s' loaded e =
    start_on-HasMemory own loader m s s' loader.framebuffers loaded e
