-- ===== src/Pmm/Taken.antt =====
-- What the clients of the allocator rely on: the frame that they are given was free.
use toast_os.Prelude.{
  ℕ, ◌*◌, ◌/◌, ◌%◌, ◌<◌, ◌≡◌, ◌≢◌, refl, ==_refl, arith, inl, inr, lt_or_le, ap, sym, ◌∙◌, ◌⊎◌, ◌+◌,
  ◌≤◌, Option-cases,
}
use toast_os.Pmm.{Pmm, pmm_alloc, alloc_frame, find_frame}
use toast_os.Pmm.Frames
use toast_os.Pmm.Frames.{Used, Free, mark}
use toast_os.Pmm.Alloc.{pmm_alloc_lem, pmm_alloc_succeeds}

-- What `pmm_alloc` leaves, and what it returns, as far as the page tables are concerned.
pub record Allocated (pmm : Pmm) (out : ℕ × Pmm) : Type 0 where
  pub frames : Frames.IsValid out.1
  pub size : out.1.bitmap_bytes ≡ pmm.bitmap_bytes
  pub used : (g : ℕ) → Used pmm g → Used out.1 g
  -- It fails for want of memory, or where it gives the frame at address 0.
  pub fails : out.0 ≡ 0 → (pmm.free_frames ≡ 0) ⊎ Free pmm 0
  pub count : pmm.free_frames ≤ out.1.free_frames + 1
  pub free : (g : ℕ) → Free out.1 g → Free pmm g
  pub fresh :
      out.0 ≢ 0
      → (out.0 % 4096 ≡ 0)
        × Free pmm (out.0 / 4096)
        × Used out.1 (out.0 / 4096)
        × (out.0 < pmm.bitmap_bytes * 8 * 4096)

bitmap_bytes-pmm_alloc : (pmm : Pmm) → (pmm_alloc pmm).1.bitmap_bytes ≡ pmm.bitmap_bytes
unfolding pmm_alloc alloc_frame
bitmap_bytes-pmm_alloc pmm = elim (Option-cases (find_frame pmm.b_map 0 pmm.bitmap_bytes)) [
  | inl e ↦ rw (e, pmm_alloc) refl
  | inr (f, e) ↦ rw (e, pmm_alloc) refl
]

pub pmm_alloc-Allocated : {pmm : Pmm} → Frames.IsValid pmm → Allocated pmm (pmm_alloc pmm)
pmm_alloc-Allocated {pmm} v = elim (pmm_alloc_lem v) [
  | inl (e, full) ↦
      let empty : pmm.free_frames ≡ 0 = elim (lt_or_le 0 pmm.free_frames) [
        | inl some' ↦
            let (f, taken) = pmm_alloc_succeeds v some' in
            let free = taken.1 in absurd (omega (arith, full f taken.0, free))
        | inr le ↦ omega arith
      ] in
      rw e (record {
        frames = v;
        size = refl;
        used = λ g u. u;
        fails = λ z. inl empty;
        count = omega arith;
        free = λ g u. u;
        fresh = λ ne. absurd (ne refl);
      })
  | inr (f, (inside, free, below, addr, marks, count, valid)) ↦
      let at : (pmm_alloc pmm).0 / 4096 ≡ f = omega (arith, addr) in
      record {
        frames = valid;
        size = bitmap_bytes-pmm_alloc pmm;
        used = λ g u. ground (arith, marks g, u);
        fails = λ z.
            let zero' : f ≡ 0 = omega (arith, addr, z) in
            inr (ap (mark pmm.b_map) (sym zero') ∙ free);
        count = omega (arith, count);
        free = λ g u. ground (arith, marks g, u);
        fresh = λ ne. (
          omega (arith, addr),
          rw at free,
          rw at (ground (arith, marks f, ==_refl f)),
          omega (arith, addr, inside),
        );
      }
]
