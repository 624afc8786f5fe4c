-- ===== src/Heap/Wrap.antt =====
-- A growth that passes the end of the 64-bit address space.
use toast_os.Prelude.{
  ℕ, zero, suc, ◌+◌, ◌-◌, ◌^◌, ◌≤◌, ◌<◌, ◌≡◌, refl, false, some, arith, ltb, u64,
}
use toast_os.Prelude.Int.{ℤ.pos}
use toast_os.Heap.{Heap, KHeap, page_align_up, grow, rounds, sys_sbrk_up, sys_sbrk}
use toast_os.Heap.Laws.{IsHeap, page_align_up_lem}

module _ (s : KHeap) (h : Heap) (valid : IsHeap h) (high : 2 ^ 63 + 4096 ≤ h.base_addr) where
  up-wraps :
      (n : ℕ)
      → n < 2 ^ 63
      → 2 ^ 64 ≤ h.brk + n
      → sys_sbrk_up s h n
        ≡ some (h.brk, record s { k_heap = some (record h { brk = h.brk + n - 2 ^ 64 }) })
  unfolding sys_sbrk_up grow
  up-wraps n lt past =
      let below : h.brk < 2 ^ 64 = omega (arith, valid.mapped, valid.below_limit, valid.room) in
      let new : u64 (h.brk + n) ≡ h.brk + n - 2 ^ 64 = omega (arith, lt, past, below) in
      let low : h.brk + n - 2 ^ 64 + 4096 < 2 ^ 63 + 4096 = omega (arith, lt, below) in
      let passes : ltb h.limit (h.brk + n - 2 ^ 64) ≡ false =
        ground (arith, low, high, valid.above_base, valid.mapped, valid.below_limit) in
      let top = page_align_up_lem (h.brk + n - 2 ^ 64) (omega (arith, low)) in
      let still : rounds h.mapped_end (page_align_up (h.brk + n - 2 ^ 64)) ≡ 0 =
        omega (arith, top, low, high, valid.above_base, valid.mapped) in
      rw (new, passes, still) refl

  -- On a heap in the upper half of the address space whose bounds are in order, a request that
  -- carries the break past the end of the address space passes the test against the limit:
  -- sys_sbrk answers the old break as if it had succeeded, maps nothing, and sets the break to the
  -- wrapped sum.
  pub sys_sbrk-wraps :
      (n : ℕ)
      → s.k_heap ≡ some h
      → n < 2 ^ 63
      → 2 ^ 64 ≤ h.brk + n
      → sys_sbrk s (pos n)
        ≡ some (h.brk, record s { k_heap = some (record h { brk = h.brk + n - 2 ^ 64 }) })
  unfolding sys_sbrk
  sys_sbrk-wraps zero at lt past =
      absurd (omega (arith, past, valid.mapped, valid.below_limit, valid.room))
  sys_sbrk-wraps (suc n) at lt past = rw (at, sys_sbrk) (up-wraps (suc n) lt past)
