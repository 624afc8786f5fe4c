-- ===== src/Heap/Laws.antt =====
-- The break stays inside the heap's range, and inside what is mapped for it.
use toast_os.Prelude.{
  ℕ, zero, suc, ◌+◌, ◌-◌, ◌*◌, ◌/◌, ◌%◌, ◌^◌, ◌≤◌, ◌<◌, ◌≡◌, refl, ◌∙◌, ap, sym, Bool, true, false,
  Option, some, ◌==◌, arith, inl, inr, ◌⊎◌, Bool-cases, Option-cases, if◌then◌else◌, ltb, u64,
  sub64, bit_and, not, max,
}
use toast_os.Prelude.Bits.{and-field}
use toast_os.Prelude.Int.{pos_part, ℤ, ℤ.pos, ℤ.negsuc}
use toast_os.Pmm.{pmm_alloc, pmm_free}
use toast_os.Vmm.{Vmm, vmm_map_page, vmm_get_phys, vmm_unmap_page}
use toast_os.Heap.{
  set_break, Heap, KHeap, sbrk_failed, page_align_up, grow, shrink, rounds, sys_sbrk_up,
  sys_sbrk_down, sys_sbrk,
}

-- The bounds of a heap: page-aligned where they should be, in order, and away from the end of the
-- address space.
pub record IsHeap (h : Heap) : Type 0 where
  pub base_aligned : h.base_addr % 4096 ≡ 0
  pub end_aligned : h.mapped_end % 4096 ≡ 0
  pub limit_aligned : h.limit % 4096 ≡ 0
  pub above_base : h.base_addr ≤ h.brk
  pub mapped : h.brk ≤ h.mapped_end
  pub below_limit : h.mapped_end ≤ h.limit
  pub room : h.limit + 4096 < 2 ^ 64

pub page_align_up_lem : (x : ℕ) → x + 4096 < 2 ^ 64 → page_align_up x ≡ (x + 4095) / 4096 * 4096
page_align_up_lem x lt =
    let wide : u64 (x + 4095) ≡ x + 4095 = omega (arith, lt) in
    ap (λ y. bit_and y (2 ^ 64 - 4096)) wide ∙ omega (arith, and-field 12 52 (x + 4095), lt)

-- A page of the heap, its frame given back.
abbrev unbacked : ℕ → ℕ → Vmm → Vmm
unbacked from ctx k =
    if not (vmm_get_phys k ctx (sub64 from 4096) == 0)
    then record k { pmm = pmm_free k.pmm (vmm_get_phys k ctx (sub64 from 4096)) }
    else k

-- Where the loop that maps pages stops: at the top, or where memory ran out.
grow-end :
    (n from to ctx flags : ℕ) (k : Vmm) (ok : Bool) (end : ℕ) (k' : Vmm)
    → from % 4096 ≡ 0
    → to % 4096 ≡ 0
    → to + 4096 < 2 ^ 64
    → from + 4096 < 2 ^ 64
    → to ≤ from + n * 4096
    → grow n from to ctx flags k ≡ some (ok, end, k')
    → (end % 4096 ≡ 0) × (from ≤ end) × (end ≤ max from to) × (ok ≡ true → end ≡ max from to)
unfolding grow
grow-end zero from to ctx flags k ok end k' a b c d e h =
    let it : from ≡ end = cc h in
    (omega (arith, it, a), omega (arith, it), omega (arith, it), λ t. omega (arith, it, e))
grow-end (suc n) from to ctx flags k ok end k' a b c d e h = elim (Bool-cases (ltb from to)) [
  | inr stop ↦
      let it : from ≡ end = cc (rw (stop, grow) at h) in
      let le : to ≤ from = ground (arith, stop) in
      (omega (arith, it, a), omega (arith, it), omega (arith, it), λ t. omega (arith, it, le))
  | inl more ↦
      let lt : from < to = ground (arith, more) in
      elim (Bool-cases ((pmm_alloc k.pmm).0 == 0)) [
        | inl full ↦
            let eq : ◌≡◌ {A = Option (Bool × ℕ × Vmm)}
                (some (false, from, record k { pmm = (pmm_alloc k.pmm).1 })) (some (ok, end, k')) =
              rw (more, full, grow) at h in
            let it : from ≡ end = cc eq in
            (omega (arith, it, a), omega (arith, it), omega (arith, it), λ t. cc (eq, t))
        | inr got ↦
            let next : u64 (from + 4096) ≡ from + 4096 = omega (arith, lt, c) in
            let k1 : Vmm = record k { pmm = (pmm_alloc k.pmm).1 } in
            elim (Option-cases (vmm_map_page k1 ctx from (pmm_alloc k.pmm).0 flags)) [
              | inl panic ↦ cc (rw (more, got, panic, grow) at h)
              | inr (p, done) ↦
                  let (a', lo, hi, all) =
                    grow-end n (from + 4096) to ctx flags (p.1) ok end k' (omega (arith, a)) b c
                      (omega (arith, lt, c)) (omega (arith, e))
                      (rw (more, got, done, next, grow) at h) in
                  (
                    a',
                    omega (arith, lo),
                    omega (arith, hi, lt, a, b),
                    λ t. omega (arith, all t, lt, a, b),
                  )
            ]
      ]
]

shrink-end :
    (n from to ctx : ℕ) (k : Vmm) (end : ℕ) (k' : Vmm)
    → from % 4096 ≡ 0
    → to % 4096 ≡ 0
    → from < 2 ^ 64
    → from ≤ to + n * 4096
    → to ≤ from
    → shrink n from to ctx k ≡ some (end, k')
    → end ≡ to
unfolding shrink
shrink-end zero from to ctx k end k' a b c d e h =
    let it : from ≡ end = cc h in omega (arith, it, d, e)
shrink-end (suc n) from to ctx k end k' a b c d e h = elim (Bool-cases (ltb to from)) [
  | inr stop ↦ let it : from ≡ end = cc (rw (stop, shrink) at h) in ground (arith, stop, e, it)
  | inl more ↦
      let lt : to < from = ground (arith, more) in
      let down : sub64 from 4096 ≡ from - 4096 = omega (arith, lt, a, b, c) in
      elim (Option-cases (vmm_unmap_page (unbacked from ctx k) ctx (sub64 from 4096))) [
        | inl panic ↦ cc (rw (more, panic, shrink) at h)
        | inr (k2, done) ↦
            shrink-end n (from - 4096) to ctx k2 end k' (omega (arith, a, lt, b)) b
              (omega (arith, c)) (omega (arith, d)) (omega (arith, a, b, lt))
              (rw (more, done, down, shrink) at h)
      ]
]

-- The break that a request asks for: never below the base.
abbrev pub target : Heap → ℤ → ℕ
target h (pos n) = h.brk + n
target h (negsuc n) = max h.base_addr (h.brk - suc n)

-- What a call may have done: nothing to the break, with the answer -1, or what was asked.
abbrev pub Moved : Heap → ℤ → (r : ℕ) → Option Heap → Type 0
Moved h increment r after =
    (h' : Heap) × (after ≡ some h')
    × IsHeap h'
    × (((r ≡ sbrk_failed) × (h'.brk ≡ h.brk)) ⊎ ((r ≡ h.brk) × (h'.brk ≡ target h increment)))

module _ (s : KHeap) (h : Heap) (valid : IsHeap h) where
  set_break-Moved :
      (n r : ℕ) (s' : KHeap) (out : Bool × ℕ × Vmm)
      → h.brk + n ≤ h.limit
      → (out.1 % 4096 ≡ 0)
        × (h.mapped_end ≤ out.1)
        × (out.1 ≤ max h.mapped_end ((h.brk + n + 4095) / 4096 * 4096))
        × (out.0 ≡ true → out.1 ≡ max h.mapped_end ((h.brk + n + 4095) / 4096 * 4096))
      → set_break s h (h.brk + n) out ≡ (r, s')
      → Moved h (pos n) r s'.k_heap
  set_break-Moved n r s' (true, end, k) le (a, lo, hi, all) eq = (
    record h { mapped_end = end; brk = h.brk + n },
    ap (λ p. p.1.k_heap) (sym eq),
    record {
      base_aligned = valid.base_aligned;
      end_aligned = a;
      limit_aligned = valid.limit_aligned;
      above_base = omega (arith, valid.above_base);
      mapped = omega (arith, all refl);
      below_limit = omega (arith, hi, le, valid.below_limit, valid.limit_aligned);
      room = valid.room;
    },
    inr (ap (λ p. p.0) (sym eq), refl),
  )
  set_break-Moved n r s' (false, end, k) le (a, lo, hi, all) eq = (
    record h { mapped_end = end },
    ap (λ p. p.1.k_heap) (sym eq),
    record {
      base_aligned = valid.base_aligned;
      end_aligned = a;
      limit_aligned = valid.limit_aligned;
      above_base = valid.above_base;
      mapped = omega (arith, lo, valid.mapped);
      below_limit = omega (arith, hi, le, valid.below_limit, valid.limit_aligned);
      room = valid.room;
    },
    inl (ap (λ p. p.0) (sym eq), refl),
  )

  up-Moved :
      (n r : ℕ) (s' : KHeap)
      → s.k_heap ≡ some h
      → h.brk + n < 2 ^ 64
      → sys_sbrk_up s h n ≡ some (r, s')
      → Moved h (pos n) r s'.k_heap
  unfolding sys_sbrk_up
  up-Moved n r s' at lt eq =
      let new : u64 (h.brk + n) ≡ h.brk + n = omega (arith, lt) in
      elim (Bool-cases (ltb h.limit (h.brk + n))) [
        | inl over ↦
            let out : some (sbrk_failed, s) ≡ some (r, s') = rw (new, over, sys_sbrk_up) at eq in
            let pair : ◌≡◌ {A = ℕ × KHeap} (sbrk_failed, s) (r, s') = cc out in
            (h, ap (λ p. p.1.k_heap) (sym pair) ∙ at, valid, inl (ap (λ p. p.0) (sym pair), refl))
        | inr fits ↦
            let le : h.brk + n ≤ h.limit = ground (arith, fits) in
            let top = page_align_up_lem (h.brk + n) (omega (arith, le, valid.room)) in
            let need : ℕ = page_align_up (h.brk + n) in
            elim (Option-cases
              (grow (rounds h.mapped_end need) h.mapped_end need h.vmm_ctx h.flags s.vmm)) [
                | inl panic ↦ cc (rw (new, fits, panic, sys_sbrk_up) at eq)
                | inr (out, done) ↦
                    let pair : some (set_break s h (h.brk + n) out) ≡ some (r, s') =
                      rw (new, fits, done, sys_sbrk_up) at eq in
                    let (a, lo, hi, all) =
                      grow-end (rounds h.mapped_end need) h.mapped_end need h.vmm_ctx h.flags s.vmm
                        (out.0) (out.1) (out.2) valid.end_aligned (omega (arith, top))
                        (omega (arith, top, le, valid.room, valid.limit_aligned))
                        (omega (arith, valid.below_limit, valid.room))
                        (omega (arith, top, valid.end_aligned)) done in
                    set_break-Moved n r s' out le
                      (a, lo, omega (arith, hi, top), λ t. omega (arith, all t, top)) (cc pair)
              ]
      ]

  down-Moved :
      (n r : ℕ) (s' : KHeap)
      → sys_sbrk_down s h (suc n) ≡ some (r, s')
      → Moved h (negsuc n) r s'.k_heap
  unfolding sys_sbrk_down
  down-Moved n r s' eq =
      let new_brk : ℕ =
        if ltb (sub64 h.brk h.base_addr) (suc n) then h.base_addr else sub64 h.brk (suc n) in
      let keep : ℕ = page_align_up new_brk in
      let is : new_brk ≡ max h.base_addr (h.brk - suc n) =
        ground (arith, valid.above_base, valid.mapped, valid.below_limit, valid.room) in
      let top =
        page_align_up_lem new_brk
          (omega (arith, is, valid.above_base, valid.mapped, valid.below_limit, valid.room)) in
      elim (Option-cases (shrink (rounds keep h.mapped_end) h.mapped_end keep h.vmm_ctx s.vmm)) [
        | inl panic ↦ cc (rw (panic, sys_sbrk_down) at eq)
        | inr (out, done) ↦
            let end =
              shrink-end (rounds keep h.mapped_end) h.mapped_end keep h.vmm_ctx s.vmm (out.0)
                (out.1) valid.end_aligned (omega (arith, top))
                (omega (arith, valid.above_base, valid.mapped, valid.below_limit, valid.room))
                (omega (arith, top, valid.above_base, valid.mapped, valid.below_limit, valid.room))
                (omega (
                  arith, top, is, valid.above_base, valid.mapped, valid.below_limit, valid.room,
                  valid.end_aligned,
                ))
                done in
            let pair : ◌≡◌ {A = ℕ × KHeap}
                (
                  h.brk,
                  record s {
                    vmm = out.1;
                    k_heap = some (record h { mapped_end = out.0; brk = new_brk });
                  },
                )
                (r, s') =
              cc (rw (done, sys_sbrk_down) at eq) in
            (
              record h { mapped_end = out.0; brk = new_brk },
              ap (λ p. p.1.k_heap) (sym pair),
              record {
                base_aligned = valid.base_aligned;
                end_aligned = omega (arith, end, top);
                limit_aligned = valid.limit_aligned;
                above_base = omega (arith, is);
                mapped = omega (arith, end, top);
                below_limit = omega (
                  arith, end, top, is, valid.above_base, valid.mapped, valid.below_limit,
                  valid.room, valid.end_aligned,
                );
                room = valid.room;
              },
              inr (ap (λ p. p.0) (sym pair), is),
            )
      ]

  -- On a heap whose base, break, mapped end and limit are in order, the bounds of pages page-
  -- aligned, and for a request that does not pass the end of the address space, a sys_sbrk that
  -- returns keeps them in order, and either answers -1 and leaves the break, or answers the old
  -- break and moves it by the request, on the way down not below the base.
  pub sys_sbrk-Moved :
      (increment : ℤ) (r : ℕ) (s' : KHeap)
      → s.k_heap ≡ some h
      → h.brk + pos_part increment < 2 ^ 64
      → sys_sbrk s increment ≡ some (r, s')
      → Moved h increment r s'.k_heap
  unfolding sys_sbrk
  sys_sbrk-Moved (pos zero) r s' at lt eq =
      let pair : ◌≡◌ {A = ℕ × KHeap} (h.brk, s) (r, s') = cc (rw (at, sys_sbrk) at eq) in
      (h, ap (λ p. p.1.k_heap) (sym pair) ∙ at, valid, inr (ap (λ p. p.0) (sym pair), omega arith))
  sys_sbrk-Moved (pos (suc n)) r s' at lt eq = up-Moved (suc n) r s' at lt (rw (at, sys_sbrk) at eq)
  sys_sbrk-Moved (negsuc n) r s' at lt eq = down-Moved n r s' (rw (at, sys_sbrk) at eq)
