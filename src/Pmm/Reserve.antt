-- ===== src/Pmm/Reserve.antt =====
-- Which frames are free after `init_pmm`: those that lie whole in a usable region of the memory map.
use toast_os.Prelude.{
  ℕ, zero, suc, ◌+◌, ◌-◌, ◌*◌, ◌/◌, ◌%◌, ◌^◌, ◌≤◌, ◌<◌, ◌≡◌, refl, ◌∙◌, ap, Bool, true, false, ◌==◌,
  if◌then◌else◌, arith, inl, inr, lt_or_le, Bool-cases, Option-cases, List, [], ◌∷◌, some, length,
  get_or, set, length-set, length-replicate, get_or-replicate, All, ltb, leb, u64, ◌||◌, ◌&&◌,
}
use toast_os.Prelude.Bits.{and-field}
use toast_os.Pmm.{Pmm, free_frame, clear_bit}
use toast_os.Pmm.Bitmap.{bit-clear_bit, bit-ones}
use toast_os.Pmm.Frames.{mark, mark-set, mark_byte}
use toast_os.Pmm.Init.{
  Entry, ready, page_floor, is_usable, start_addr, end_addr, skips, scan_map, place_bitmap,
  free_range, free_entry, free_usable, place, init_pmm, all_used,
}

page_floor_lem : (x : ℕ) → x < 2 ^ 64 → page_floor x ≡ x - x % 4096
page_floor_lem x h = omega (arith, and-field 12 52 x)

-- `free_frame` at any address, seen at a frame of the bitmap.
pub length-free_frame : (pmm : Pmm) (a : ℕ) → length (free_frame pmm a).b_map ≡ length pmm.b_map
unfolding free_frame
length-free_frame pmm a = length-set pmm.b_map _ _

set-past : (bs : List ℕ) (i v : ℕ) → length bs ≤ i → set bs i v ≡ bs
set-past [] i v h = refl
set-past (b ∷ bs) zero v h = absurd (omega arith)
set-past (b ∷ bs) (suc i) v h = ap (λ l. b ∷ l) (set-past bs i v (omega arith))

pub mark-free_frame_at :
    (pmm : Pmm) (a g : ℕ)
    → g / 8 < length pmm.b_map
    → mark (free_frame pmm a).b_map g ≡ (if g == a / 4096 then 0 else mark pmm.b_map g)
unfolding free_frame
mark-free_frame_at pmm a g gin =
    let f : ℕ = a / 4096 in
    let old : ℕ = get_or pmm.b_map (f / 8) 0 in
    let new : ℕ = clear_bit old (f % 8) in
    let split : g / 8 ≡ f / 8 → g % 8 ≡ f % 8 → g ≡ f = λ p q. omega arith in
    elim (lt_or_le (f / 8) (length pmm.b_map)) [
      | inl fin ↦ rw (mark-set pmm.b_map f new fin g) (
          ground (
            arith,
            bit-clear_bit old (f % 8) (g % 8) (omega arith) (omega arith),
            mark_byte pmm.b_map (f / 8) g fin,
            split,
          ))
      | inr past ↦ rw (set-past pmm.b_map (f / 8) new past) (ground arith)
    ]

abbrev pub within : ℕ → ℕ → ℕ → Bool
within a e g = leb a (g * 4096) && ltb (g * 4096) e

module _ (g end : ℕ) (aligned : end % 4096 ≡ 0) (small : end < 2 ^ 64) where
  pub free_range_lem :
      (n a : ℕ) (pmm : Pmm)
      → a % 4096 ≡ 0
      → end - a ≤ n * 4096
      → g / 8 < length pmm.b_map
      → (mark (free_range n a end pmm).b_map g ≡ (if within a end g then 0 else mark pmm.b_map g))
        × (length (free_range n a end pmm).b_map ≡ length pmm.b_map)
  unfolding free_range
  free_range_lem zero a pmm al fuel gin = (ground arith, refl)
  free_range_lem (suc n) a pmm al fuel gin = elim (lt_or_le a end) [
    | inl lt ↦
        let size = length-free_frame pmm a in
        let next : u64 (a + 4096) ≡ a + 4096 = omega arith in
        let on : ltb a end ≡ true = ground arith in
        let (marks, len) =
          free_range_lem n (a + 4096) (free_frame pmm a) (omega arith) (omega arith)
            (omega arith) in
        rw (on, next) (ground (arith, marks, mark-free_frame_at pmm a g gin), len ∙ size)
    | inr le ↦ let off : ltb a end ≡ false = ground arith in rw off (ground arith, refl)
  ]

-- A region whose arithmetic does not wrap.
abbrev pub Fits : Entry → Type 0
Fits ent = ent.base + ent.len + 4096 ≤ 2 ^ 64

-- Frame `g` lies whole in the region, and the region is usable.
abbrev pub holds : ℕ → Entry → Bool
holds g ent =
    is_usable ent && (leb ent.base (g * 4096) && leb (g * 4096 + 4096) (ent.base + ent.len))

abbrev pub covered : ℕ → List Entry → Bool
covered g [] = false
covered g (ent ∷ rest) = holds g ent || covered g rest

module _ (ent : Entry) (fits : Fits ent) where
  pub ends :
      (start_addr ent ≡ ent.base + 4095 - (ent.base + 4095) % 4096)
      × (end_addr ent ≡ ent.base + ent.len - (ent.base + ent.len) % 4096)
  ends =
      let s : u64 (ent.base + 4096 - 1) ≡ ent.base + 4095 = omega arith in
      let e : u64 (ent.base + ent.len) ≡ ent.base + ent.len = omega arith in
      (
        ap page_floor s ∙ page_floor_lem (ent.base + 4095) (omega arith),
        ap page_floor e ∙ page_floor_lem (ent.base + ent.len) (omega arith),
      )

  pub holds_skipped : (g : ℕ) → skips ent ≡ true → holds g ent ≡ false
  unfolding skips
  holds_skipped g skip = ground (arith, ends)

  pub holds_freed :
      (g : ℕ) → skips ent ≡ false → holds g ent ≡ within (start_addr ent) (end_addr ent) g
  unfolding skips
  holds_freed g keep = ground (arith, ends)

  pub free_entry_lem :
      (g : ℕ) (pmm : Pmm)
      → skips ent ≡ false
      → g / 8 < length pmm.b_map
      → (mark (free_entry ent pmm).b_map g ≡ (if holds g ent then 0 else mark pmm.b_map g))
        × (length (free_entry ent pmm).b_map ≡ length pmm.b_map)
  unfolding free_entry
  free_entry_lem g pmm keep gin = rw (holds_freed g keep) (
      free_range_lem g (end_addr ent) (omega (arith, ends)) (omega (arith, ends))
        ((end_addr ent - start_addr ent) / 4096) (start_addr ent) pmm (omega (arith, ends))
        (omega (arith, ends)) gin)

abbrev pub dated : Entry → Bool → Pmm → Pmm
dated ent first pmm = if first then pmm else record pmm { alloc_start_frame = ent.base }

module _ (ent : Entry) (es : List Entry) (first : Bool) (pmm : Pmm) where
  pub free_usable-skip :
      skips ent ≡ true → free_usable (ent ∷ es) first pmm ≡ free_usable es first pmm
  unfolding free_usable
  free_usable-skip skip = rw (free_usable, skip)

  pub free_usable-keep :
      skips ent ≡ false
      → free_usable (ent ∷ es) first pmm
        ≡ free_usable es true (free_entry ent (dated ent first pmm))
  unfolding free_usable
  free_usable-keep keep = rw (free_usable, keep)

free_usable_lem :
    (g : ℕ) (es : List Entry) (first : Bool) (pmm : Pmm)
    → All Fits es
    → g / 8 < length pmm.b_map
    → mark (free_usable es first pmm).b_map g ≡ (if covered g es then 0 else mark pmm.b_map g)
unfolding free_usable
free_usable_lem g [] first pmm h gin = refl
free_usable_lem g (ent ∷ es) first pmm h gin = elim (Bool-cases (skips ent)) [
  | inl skip ↦
      rw (free_usable-skip ent es first pmm skip, holds_skipped ent h.0 g skip)
        (free_usable_lem g es first pmm h.1 gin)
  | inr keep ↦
      let at : Pmm = dated ent first pmm in
      let same : at.b_map ≡ pmm.b_map = elim (Bool-cases first) [ inl t ↦ rw t | inr f ↦ rw f ] in
      let (marks, len) = free_entry_lem ent h.0 g at keep (rw same gin) in
      rw (free_usable-keep ent es first pmm keep) (
        free_usable_lem g es true (free_entry ent at) h.1 (rw (len, same) gin)
        ∙ ground (arith, marks, same))
]

-- The loops leave the size of the bitmap alone.
pub bytes-free_range :
    (n a end : ℕ) (pmm : Pmm) → (free_range n a end pmm).bitmap_bytes ≡ pmm.bitmap_bytes
unfolding free_range
bytes-free_range zero a end pmm = refl
bytes-free_range (suc n) a end pmm =
    ground (arith, bytes-free_range n (u64 (a + 4096)) end (free_frame pmm a), bytes_frame)
  where
    bytes_frame : (free_frame pmm a).bitmap_bytes ≡ pmm.bitmap_bytes
    bytes_frame = refl

pub bytes-free_usable :
    (es : List Entry) (first : Bool) (pmm : Pmm)
    → (free_usable es first pmm).bitmap_bytes ≡ pmm.bitmap_bytes
unfolding free_usable free_entry
bytes-free_usable [] first pmm = refl
bytes-free_usable (ent ∷ es) first pmm = elim (Bool-cases (skips ent)) [
  | inl skip ↦ rw (free_usable-skip ent es first pmm skip) (bytes-free_usable es first pmm)
  | inr keep ↦ rw (free_usable-keep ent es first pmm keep) (
      bytes-free_usable es true _
      ∙ bytes-free_range _ (start_addr ent) (end_addr ent) (dated ent first pmm)
      ∙ ground arith)
]

pub place_lem :
    (hhdm kphys kvirt kernel_end max_mem : ℕ) (es : List Entry) {pmm : Pmm} {left : List Entry}
    → place hhdm kphys kvirt kernel_end max_mem es ≡ ready (pmm, left)
    → (at : ℕ) × (pmm
        ≡ free_usable left false (all_used hhdm kphys kvirt kernel_end at (max_mem / 4096)))
unfolding place
place_lem hhdm kphys kvirt kernel_end max_mem es e =
    elim (Option-cases (place_bitmap (max_mem / 4096 / 8) es)) [
      | inl no_room ↦ cc
      | inr ((at, left'), room) ↦ (at, ground arith)
    ]

-- The frames that are free, by the map that is left.
pub init_pmm-left :
    (hhdm : ℕ) (kaddr : ℕ × ℕ) (memmap : Entry × List Entry) {pmm : Pmm} {left : List Entry} (g : ℕ)
    → init_pmm (some hhdm) (some kaddr) (some memmap) ≡ ready (pmm, left)
    → All Fits left
    → g < pmm.bitmap_bytes * 8
    → mark pmm.b_map g ≡ (if covered g left then 0 else 1)
unfolding init_pmm
init_pmm-left hhdm (kphys, kvirt) (first, rest) {pmm} {left} g e fits inside =
    let (kernel_end, max_mem) = scan_map (first ∷ rest) 0 first.base in
    elim (Bool-cases (kernel_end == 0)) [
      | inl bad ↦ ground arith
      | inr good ↦
          let (at, is) =
            place_lem hhdm kphys kvirt kernel_end max_mem (first ∷ rest) {pmm = pmm} {left = left}
              (ground arith) in
          let fresh = all_used hhdm kphys kvirt kernel_end at (max_mem / 4096) in
          let size = ap (λ (p : Pmm). p.bitmap_bytes) is ∙ bytes-free_usable left false fresh in
          let len = length-replicate {A = ℕ} (max_mem / 4096 / 8) 255 in
          let full : mark fresh.b_map g ≡ 1 =
            rw (get_or-replicate {A = ℕ} (max_mem / 4096 / 8) (g / 8) 255)
              (bit-ones (g % 8) (omega arith)) in
          rw is (free_usable_lem g left false fresh fits (omega arith) ∙ rw full)
    ]
