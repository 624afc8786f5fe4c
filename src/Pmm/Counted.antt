-- ===== src/Pmm/Counted.antt =====
-- That `init_pmm` leaves the count of free frames right, on a memory map whose usable frames are in
-- one region each and inside the bitmap.
use mathlib.Core.Path.{subst}
use toast_os.Prelude.{
  ℕ, zero, suc, ◌+◌, ◌-◌, ◌*◌, ◌/◌, ◌%◌, ◌^◌, ◌<◌, ◌≡◌, ◌∙◌, ap, sym, Bool, true, false, arith, inl,
  inr, lt_or_le, Bool-cases, List, [], ◌∷◌, some, All, replicate, length-replicate,
  get_or-replicate, ltb, u64,
}
use toast_os.Pmm.{Pmm, free_frame}
use toast_os.Pmm.Bitmap.{bit-ones}
use toast_os.Pmm.Frames.{mark, count_free-full, IsValid}
use toast_os.Pmm.Alloc.{free_frame-IsValid}
use toast_os.Pmm.Init.{
  Entry, ready, start_addr, end_addr, skips, scan_map, free_range, free_entry, free_usable,
  init_pmm, all_used,
}
use toast_os.Pmm.Reserve.{
  Fits, holds, covered, within, dated, ends, holds_freed, free_entry_lem, free_usable-skip,
  free_usable-keep, mark-free_frame_at, bytes-free_range,
}
use toast_os.Pmm.Placing.{Disjoint, available-covered, highest, scanned-highest, init_pmm-Placed}

-- Every frame of `P` is a frame of the bitmap, and in use.
abbrev Reserved : (ℕ → Bool) → Pmm → Type 0
Reserved p pmm = (g : ℕ) → p g ≡ true → (mark pmm.b_map g ≡ 1) × (g < pmm.bitmap_bytes * 8)

free_range-IsValid :
    (n a end : ℕ) (pmm : Pmm)
    → a % 4096 ≡ 0
    → end % 4096 ≡ 0
    → end < 2 ^ 64
    → IsValid pmm
    → Reserved (within a end) pmm
    → IsValid (free_range n a end pmm)
unfolding free_range
free_range-IsValid zero a end pmm al al' small v r = v
free_range-IsValid (suc n) a end pmm al al' small v r = elim (lt_or_le a end) [
  | inl lt ↦
      let on : ltb a end ≡ true = ground arith in
      let next : u64 (a + 4096) ≡ a + 4096 = omega arith in
      let at : a / 4096 * 4096 ≡ a = omega arith in
      let (used, inside) = r (a / 4096) (ground arith) in
      let v1 : IsValid (free_frame pmm a) =
        subst (λ b. IsValid (free_frame pmm b)) at
          (free_frame-IsValid v (a / 4096) inside used).0 in
      rw (on, next)
        (free_range-IsValid n (a + 4096) end (free_frame pmm a) (omega arith) al' small v1 (λ g p.
          let (used', inside') = r g (ground (arith, p)) in
          (
            mark-free_frame_at pmm a g (omega (arith, inside', v.sized)) ∙ ground (arith, p, used'),
            inside',
          )))
  | inr le ↦ let off : ltb a end ≡ false = ground arith in rw off v
]

IsValid-dated :
    (ent : Entry) (first : Bool) (pmm : Pmm) → IsValid pmm → IsValid (dated ent first pmm)
IsValid-dated ent true pmm v = v
IsValid-dated ent false pmm v = record {
  sized = v.sized;
  bytes = v.bytes;
  fits = v.fits;
  counted = v.counted;
}

free_usable-IsValid :
    (es : List Entry) (first : Bool) (pmm : Pmm)
    → All Fits es
    → Disjoint es
    → IsValid pmm
    → Reserved (λ g. covered g es) pmm
    → IsValid (free_usable es first pmm)
unfolding free_usable
free_usable-IsValid [] first pmm h d v r = v
free_usable-IsValid (ent ∷ es) first pmm h d v r = elim (Bool-cases (skips ent)) [
  | inl skip ↦
      rw (free_usable-skip ent es first pmm skip)
        (free_usable-IsValid es first pmm h.1 d.1 v (λ g c. r g (ground (arith, c))))
  | inr keep ↦
      let at = dated ent first pmm in
      let same : at.b_map ≡ pmm.b_map = elim (Bool-cases first) [ inl t ↦ rw t | inr f ↦ rw f ] in
      let size : at.bitmap_bytes ≡ pmm.bitmap_bytes = elim (Bool-cases first) [
        | inl t ↦ rw t
        | inr f ↦ rw f
      ] in
      let v1 = IsValid-dated ent first pmm v in
      let (start_is, end_is) = ends ent h.0 in
      let v2 : IsValid (free_entry ent at) =
        unfold free_entry in
        free_range-IsValid ((end_addr ent - start_addr ent) / 4096) (start_addr ent) (end_addr ent)
          at (omega arith) (omega arith) (omega arith) v1
          (λ g w.
            let (used, inside) = r g (ground (arith, holds_freed ent h.0 g keep, w)) in
            (ap (λ b. mark b g) same ∙ used, rw size inside)) in
      let kept : (free_entry ent at).bitmap_bytes ≡ pmm.bitmap_bytes =
        unfold free_entry in
        bytes-free_range ((end_addr ent - start_addr ent) / 4096) (start_addr ent) (end_addr ent) at
        ∙ size in
      rw (free_usable-keep ent es first pmm keep) (
        free_usable-IsValid es true (free_entry ent at) h.1 d.1 v2 (λ g c.
          let (used, inside) = r g (ground (arith, c)) in
          let (marks, _) =
            free_entry_lem ent h.0 g at keep (omega (arith, inside, size, v1.sized)) in
          let out : holds g ent ≡ false = ground (arith, d.0 g, c) in
          (marks ∙ rw (out, same) used, rw kept inside)))
]

scan_map-lt :
    (es : List Entry) (kernel_end max_mem : ℕ)
    → max_mem < 2 ^ 64
    → (scan_map es kernel_end max_mem).1 < 2 ^ 64
unfolding scan_map
scan_map-lt [] kernel_end max_mem lt = lt
scan_map-lt (ent ∷ es) kernel_end max_mem lt = scan_map-lt es _ _ (ground arith)

All-ones : (n : ℕ) → All (λ b. b < 256) (replicate n 255)
All-ones zero = tt
All-ones (suc n) = (omega arith, All-ones n)

mark-ones : (n g : ℕ) → mark (replicate n 255) g ≡ 1
mark-ones n g = rw (get_or-replicate {A = ℕ} n (g / 8) 255) (bit-ones (g % 8) (omega arith))

all_used-IsValid :
    (hhdm kphys kvirt kernel_end at max_mem : ℕ)
    → max_mem < 2 ^ 64
    → IsValid (all_used hhdm kphys kvirt kernel_end at (max_mem / 4096))
all_used-IsValid hhdm kphys kvirt kernel_end at max_mem lt =
    let n : ℕ = max_mem / 4096 / 8 in
    record {
      sized = sym (length-replicate {A = ℕ} n 255);
      bytes = All-ones n;
      fits = omega arith;
      counted = sym (count_free-full (replicate n 255) (λ g h. mark-ones n g));
    }

-- Where no frame lies whole in two usable regions, and those that lie in one are frames of the
-- bitmap, the allocator is in order after `init_pmm`.
pub init_pmm-IsValid :
    (hhdm : ℕ) (kaddr : ℕ × ℕ) (first : Entry) (rest : List Entry) {pmm : Pmm} {left : List Entry}
    → init_pmm (some hhdm) (some kaddr) (some (first, rest)) ≡ ready (pmm, left)
    → All Fits (first ∷ rest)
    → Disjoint (first ∷ rest)
    → ((g : ℕ) → covered g (first ∷ rest) ≡ true → g < highest (first, rest) / 4096 / 8 * 8)
    → IsValid pmm
init_pmm-IsValid hhdm (kphys, kvirt) first rest {pmm} {left} e fits disjoint inside =
    let (bytes, placed, is) = init_pmm-Placed hhdm (kphys, kvirt) first rest e fits in
    let (kernel_end, max_mem) = scan_map (first ∷ rest) 0 first.base in
    let fresh = all_used hhdm kphys kvirt kernel_end pmm.bitmap_phys (max_mem / 4096) in
    let v =
      all_used-IsValid hhdm kphys kvirt kernel_end pmm.bitmap_phys max_mem
        (scan_map-lt (first ∷ rest) 0 first.base (omega (arith, fits.0))) in
    subst IsValid (sym is) (
      free_usable-IsValid left false fresh placed.fits (placed.disjoint disjoint) v (λ g c. (
        mark-ones (max_mem / 4096 / 8) g,
        rw (scanned-highest first rest fits) (
            inside g (elim (Bool-cases (covered g (first ∷ rest))) [
              | inl here ↦ here
              | inr out ↦
                  cc (c, placed.frames g, available-covered pmm.bitmap_bytes g (first ∷ rest) out)
            ])),
      )))
