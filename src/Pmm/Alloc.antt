-- ===== src/Pmm/Alloc.antt =====
-- What `pmm_alloc` and `pmm_free` do to the set of free frames, and that they keep the count right.
use toast_os.Prelude.{
  ℕ, ◌+◌, ◌*◌, ◌/◌, ◌%◌, ◌<◌, ◌≡◌, refl, ◌≢◌, ◌∙◌, ap, sym, ◌==◌, if◌then◌else◌, arith, inl, inr,
  ◌⊎◌, Option-cases, none, some, length, get_or, set, length-set, get_or-set_self, set-set,
  set-get_or, All-set, All-get_or, u64, sub64,
}
use toast_os.Prelude.Bits.{bit}
use toast_os.Pmm.{Pmm, set_bit, clear_bit, free_frame, alloc_frame, find_frame, pmm_alloc, pmm_free}
use toast_os.Pmm.Bitmap.{
  bit-set_bit, bit-clear_bit, set_bit-lt, clear_bit-lt, clear_bit-set_bit, zeros-set_bit,
  zeros-clear_bit,
}
use toast_os.Pmm.Frames.{
  mark, Used, Free, IsValid, mark_byte, mark-set, count_free-set, count_free-le, count_free-full,
  find_frame-some, find_frame-none,
}

module _ {pmm : Pmm} (v : IsValid pmm) (f : ℕ) (inside : f < pmm.bitmap_bytes * 8) where
  byte_in : f / 8 < length pmm.b_map
  byte_in = omega (arith, v.sized)

  byte_lt : get_or pmm.b_map (f / 8) 0 < 256
  byte_lt = All-get_or (λ b. b < 256) pmm.b_map (f / 8) 0 v.bytes (omega arith)

  mark_at : mark pmm.b_map f ≡ bit (get_or pmm.b_map (f / 8) 0) (f % 8)
  mark_at = mark_byte pmm.b_map (f / 8) f byte_in refl

  frame_eq : (g : ℕ) → g / 8 ≡ f / 8 → g % 8 ≡ f % 8 → g ≡ f
  frame_eq g p q = omega arith

  frame_of : f * 4096 / 4096 ≡ f
  frame_of = omega arith

  pub mark-alloc_frame :
      (g : ℕ) → mark (alloc_frame pmm (f * 4096)).b_map g ≡ (if g == f then 1 else mark pmm.b_map g)
  unfolding alloc_frame
  mark-alloc_frame g =
      let old : ℕ = get_or pmm.b_map (f / 8) 0 in
      rw (frame_of, mark-set pmm.b_map f (set_bit old (f % 8)) byte_in g)
        (ground (
          arith,
          bit-set_bit old (f % 8) (g % 8),
          mark_byte pmm.b_map (f / 8) g byte_in,
          frame_eq g,
        ))

  pub mark-free_frame :
      (g : ℕ) → mark (free_frame pmm (f * 4096)).b_map g ≡ (if g == f then 0 else mark pmm.b_map g)
  unfolding free_frame
  mark-free_frame g =
      let old : ℕ = get_or pmm.b_map (f / 8) 0 in
      rw (frame_of, mark-set pmm.b_map f (clear_bit old (f % 8)) byte_in g)
        (ground (
          arith,
          bit-clear_bit old (f % 8) (g % 8) (omega arith) (omega arith),
          mark_byte pmm.b_map (f / 8) g byte_in,
          frame_eq g,
        ))

  pub alloc_frame-IsValid :
      Free pmm f
      → IsValid (alloc_frame pmm (f * 4096))
        × ((alloc_frame pmm (f * 4096)).free_frames + 1 ≡ pmm.free_frames)
  unfolding alloc_frame
  alloc_frame-IsValid free =
      let old : ℕ = get_or pmm.b_map (f / 8) 0 in
      let new : ℕ = set_bit old (f % 8) in
      let clear : bit old (f % 8) ≡ 0 = sym mark_at ∙ free in
      let count = count_free-set pmm.b_map (f / 8) new byte_in in
      let one = zeros-set_bit old (f % 8) (omega arith) clear in
      let room = count_free-le pmm.b_map in
      let down : sub64 pmm.free_frames 1 + 1 ≡ pmm.free_frames =
        omega (arith, count, one, room, v.sized, v.fits, v.counted) in
      rw frame_of (
        record {
          sized = v.sized ∙ sym (length-set pmm.b_map (f / 8) new);
          bytes =
              All-set (λ b. b < 256) pmm.b_map (f / 8) new v.bytes
                (set_bit-lt old (f % 8) byte_lt (omega arith));
          fits = v.fits;
          counted = ground (arith, down, count, one, v.counted);
        },
        ground (arith, down),
      )

  pub free_frame-IsValid :
      Used pmm f
      → IsValid (free_frame pmm (f * 4096))
        × ((free_frame pmm (f * 4096)).free_frames ≡ pmm.free_frames + 1)
  unfolding free_frame
  free_frame-IsValid used =
      let old : ℕ = get_or pmm.b_map (f / 8) 0 in
      let new : ℕ = clear_bit old (f % 8) in
      let set_ : bit old (f % 8) ≡ 1 = sym mark_at ∙ used in
      let count = count_free-set pmm.b_map (f / 8) new byte_in in
      let one = zeros-clear_bit old (f % 8) (omega arith) set_ in
      let room = count_free-le (set pmm.b_map (f / 8) new) in
      let size = length-set pmm.b_map (f / 8) new in
      let up : u64 (pmm.free_frames + 1) ≡ pmm.free_frames + 1 =
        omega (arith, count, one, room, size, v.sized, v.fits, v.counted) in
      rw frame_of (
        record {
          sized = v.sized ∙ sym size;
          bytes =
              All-set (λ b. b < 256) pmm.b_map (f / 8) new v.bytes
                (clear_bit-lt old (f % 8) byte_lt);
          fits = v.fits;
          counted = omega (arith, up, count, one, v.counted);
        },
        up,
      )

  pub free_frame-alloc_frame : Free pmm f → free_frame (alloc_frame pmm (f * 4096)) (f * 4096) ≡ pmm
  unfolding free_frame alloc_frame
  free_frame-alloc_frame free =
      let old : ℕ = get_or pmm.b_map (f / 8) 0 in
      let new : ℕ = set_bit old (f % 8) in
      let clear : bit old (f % 8) ≡ 0 = sym mark_at ∙ free in
      let count = count_free-set pmm.b_map (f / 8) new byte_in in
      let one = zeros-set_bit old (f % 8) (omega arith) clear in
      let room = count_free-le pmm.b_map in
      let same : set (set pmm.b_map (f / 8) new) (f / 8) (clear_bit new (f % 8)) ≡ pmm.b_map =
        set-set pmm.b_map (f / 8) new _
        ∙ ap (set pmm.b_map (f / 8)) (clear_bit-set_bit old (f % 8) byte_lt (omega arith) clear)
        ∙ set-get_or pmm.b_map (f / 8) 0 in
      rw (frame_of, get_or-set_self pmm.b_map (f / 8) new 0 byte_in, same)
        (ground (arith, count, one, room, v.sized, v.fits, v.counted))

-- A free frame is found as long as the count of free frames is not zero.
find_frame_total :
    {pmm : Pmm}
    → IsValid pmm
    → 0 < pmm.free_frames
    → (f : ℕ) × (find_frame pmm.b_map 0 pmm.bitmap_bytes ≡ some f)
find_frame_total {pmm} v pos = elim (Option-cases (find_frame pmm.b_map 0 pmm.bitmap_bytes)) [
  | inl e ↦ absurd (
      omega (
        arith,
        v.counted,
        count_free-full pmm.b_map (λ g lt.
            find_frame-none pmm.b_map 0 pmm.bitmap_bytes (omega (arith, v.sized)) e g (omega arith)
              (omega (arith, v.sized))),
      ))
  | inr found ↦ found
]

-- What a call of `pmm_alloc` may do: report exhaustion, or take the first free frame.
abbrev pub Exhausted : Pmm → ℕ × Pmm → Type 0
Exhausted pmm out = (out ≡ (0, pmm)) × ((g : ℕ) → g < pmm.bitmap_bytes * 8 → Used pmm g)

abbrev pub Takes : Pmm → ℕ × Pmm → ℕ → Type 0
Takes pmm out f =
    (f < pmm.bitmap_bytes * 8)
    × Free pmm f
    × ((g : ℕ) → g < f → Used pmm g)
    × (out.0 ≡ f * 4096)
    × ((g : ℕ) → mark out.1.b_map g ≡ (if g == f then 1 else mark pmm.b_map g))
    × (out.1.free_frames + 1 ≡ pmm.free_frames)
    × IsValid out.1

pmm_alloc-none :
    (pmm : Pmm) → find_frame pmm.b_map 0 pmm.bitmap_bytes ≡ none → pmm_alloc pmm ≡ (0, pmm)
unfolding pmm_alloc
pmm_alloc-none pmm e = rw (e, pmm_alloc)

pmm_alloc-some :
    {pmm : Pmm} {f : ℕ}
    → IsValid pmm
    → find_frame pmm.b_map 0 pmm.bitmap_bytes ≡ some f
    → (f < pmm.bitmap_bytes * 8)
      × Free pmm f
      × ((g : ℕ) → g < f → Used pmm g)
      × (pmm_alloc pmm ≡ (f * 4096, alloc_frame pmm (f * 4096)))
unfolding pmm_alloc
pmm_alloc-some {pmm} {f} v e =
    let (lo, hi, free, below) =
      find_frame-some pmm.b_map 0 pmm.bitmap_bytes f (omega (arith, v.sized)) e in
    let addr : u64 (f * 4096) ≡ f * 4096 = omega (arith, v.fits, hi) in
    (omega arith, free, λ g lt. below g (omega arith) lt, rw (e, pmm_alloc) (rw addr))

takes :
    {pmm : Pmm} {f : ℕ}
    → IsValid pmm
    → find_frame pmm.b_map 0 pmm.bitmap_bytes ≡ some f
    → Takes pmm (pmm_alloc pmm) f
takes {pmm} {f} v e =
    let (inside, free, below, eq) = pmm_alloc-some v e in
    let (valid, count) = alloc_frame-IsValid v f inside free in
    rw eq (inside, free, below, refl, mark-alloc_frame v f inside, count, valid)

-- On a valid allocator pmm_alloc either returns 0 and changes nothing, every frame of the bitmap
-- being in use, or returns the address of the first free frame, marks that frame and no other,
-- counts one free frame less, and leaves a valid allocator.
pub pmm_alloc_lem :
    {pmm : Pmm}
    → IsValid pmm
    → Exhausted pmm (pmm_alloc pmm) ⊎ ((f : ℕ) × Takes pmm (pmm_alloc pmm) f)
pmm_alloc_lem {pmm} v = elim (Option-cases (find_frame pmm.b_map 0 pmm.bitmap_bytes)) [
  | inl e ↦ inl (
    pmm_alloc-none pmm e,
    λ g lt.
        find_frame-none pmm.b_map 0 pmm.bitmap_bytes (omega (arith, v.sized)) e g (omega arith)
          (omega arith),
  )
  | inr (f, e) ↦ inr (f, takes v e)
]

-- On a valid allocator with a free frame pmm_alloc takes one.
pub pmm_alloc_succeeds :
    {pmm : Pmm} → IsValid pmm → 0 < pmm.free_frames → (f : ℕ) × Takes pmm (pmm_alloc pmm) f
pmm_alloc_succeeds v pos = let (f, e) = find_frame_total v pos in (f, takes v e)

-- On a valid allocator, while a frame is free, pmm_free of what pmm_alloc has just returned
-- restores the allocator.
pub pmm_free-pmm_alloc :
    {pmm : Pmm}
    → IsValid pmm
    → 0 < pmm.free_frames
    → let (addr, pmm') = pmm_alloc pmm in pmm_free pmm' addr ≡ pmm
unfolding pmm_free
pmm_free-pmm_alloc v pos =
    let (f, e) = find_frame_total v pos in
    let (inside, free, below, eq) = pmm_alloc-some v e in
    rw eq (free_frame-alloc_frame v f inside free)

-- On a valid allocator, freeing a frame that is in use frees it, leaves the other frames alone,
-- counts one more, and keeps the allocator valid.
pub pmm_free_lem :
    {pmm : Pmm}
    → IsValid pmm
    → (f : ℕ) → f < pmm.bitmap_bytes * 8
    → Used pmm f
    → ((g : ℕ) → mark (pmm_free pmm (f * 4096)).b_map g ≡ (if g == f then 0 else mark pmm.b_map g))
      × ((pmm_free pmm (f * 4096)).free_frames ≡ pmm.free_frames + 1)
      × IsValid (pmm_free pmm (f * 4096))
unfolding pmm_free
pmm_free_lem v f inside used =
    let (valid, count) = free_frame-IsValid v f inside used in
    (mark-free_frame v f inside, count, valid)

-- On a valid allocator, two calls of pmm_alloc in a row, with two frames free, return different
-- addresses.
pub pmm_alloc_twice :
    {pmm : Pmm}
    → IsValid pmm
    → 1 < pmm.free_frames
    → let (a, pmm') = pmm_alloc pmm in let (b, pmm'') = pmm_alloc pmm' in a ≢ b
pmm_alloc_twice {pmm} v pos =
    let (f, first) = pmm_alloc_succeeds v (omega arith) in
    let (g, second) = pmm_alloc_succeeds first.6 (omega (arith, first.5)) in
    λ same.
      let f≡g : f ≡ g = omega (arith, same, first.3, second.3) in
      ground (arith, first.4 g, second.1)
