-- ===== src/Heap/Tests.antt =====
-- The theorems on kernel/mmu/heap.c at the heap that init_kheap leaves.
use toast_os.Prelude.{true, ◌*◌, ◌+◌, ◌-◌, ◌^◌, ◌≡◌, refl, some, [], ◌∷◌, arith}
use toast_os.Prelude.Int.{ℤ.pos}
use toast_os.Pmm.{Pmm, pmm_alloc, find_frame, find_bit}
use toast_os.Vmm.{Vmm}
use toast_os.Heap.{Heap, KHeap, kheap_virt_base, sys_sbrk, sys_sbrk_up, grow, sbrk_failed}
use toast_os.Heap.Laws.{IsHeap, Moved, sys_sbrk-Moved}
use toast_os.Heap.Wrap.{sys_sbrk-wraps}

abbrev no_memory : Pmm
no_memory = record {
  hhdm_base = 0;
  kernel_phys_base = 0;
  kernel_virt_base = 0;
  kernel_phys_end = 0;
  bitmap_phys = 4096;
  bitmap_bytes = 1;
  alloc_start_frame = 2;
  max_frames = 8;
  free_frames = 0;
  b_map = 255 ∷ [];
}

abbrev booted : Vmm
booted = record {
  pmm = no_memory;
  ram = λ p i. 0;
  contexts = λ c. 4096;
  kernel_ctx = 64;
  nx_enabled = true;
  cr3 = 4096;
  freed = [];
}

abbrev kheap : Heap
kheap = record {
  base_addr = kheap_virt_base;
  brk = kheap_virt_base + 100;
  mapped_end = kheap_virt_base + 4096;
  limit = kheap_virt_base + 1024 * 1024 * 64;
  flags = 3;
  vmm_ctx = 64;
}

abbrev running : KHeap
running = record { k_heap = some kheap; vmm = booted }

kheap-IsHeap : IsHeap kheap
kheap-IsHeap = record {
  base_aligned = refl;
  end_aligned = refl;
  limit_aligned = refl;
  above_base = omega arith;
  mapped = omega arith;
  below_limit = omega arith;
  room = omega arith;
}

-- A request beyond the page that is mapped fails for want of memory.
short : sys_sbrk running (pos 8192) ≡ some (sbrk_failed, running)
unfolding sys_sbrk sys_sbrk_up grow pmm_alloc find_frame find_bit
short = refl

sys_sbrk-Moved_example : Moved kheap (pos 8192) sbrk_failed (some kheap)
sys_sbrk-Moved_example =
    sys_sbrk-Moved running kheap kheap-IsHeap (pos 8192) sbrk_failed running refl (omega arith)
      short

sys_sbrk-wraps_example :
    sys_sbrk running (pos (2 ^ 47))
    ≡ some (
      kheap_virt_base + 100,
      record running {
        k_heap = some (record kheap { brk = kheap_virt_base + 100 + 2 ^ 47 - 2 ^ 64 });
      },
    )
sys_sbrk-wraps_example =
    sys_sbrk-wraps running kheap kheap-IsHeap (omega arith) (2 ^ 47) refl (omega arith)
      (omega arith)
