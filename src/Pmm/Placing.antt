-- ===== src/Pmm/Placing.antt =====
-- Where `init_pmm` puts the bitmap, and which frames are then free, by the boot loader's memory map.
use mathlib.Core.Path.{subst}
use toast_os.Prelude.{
  ℕ, ◌+◌, ◌-◌, ◌*◌, ◌/◌, ◌<◌, ◌≡◌, refl, ◌∙◌, ap, ap₂, sym, Bool, true, false, ◌==◌, if◌then◌else◌,
  arith, inl, inr, Bool-cases, Option, Option-cases, List, [], ◌∷◌, none, some, All, leb, ltb, max,
  u64, ◌||◌, ◌&&◌, zero, suc,
}
use toast_os.Pmm.{Pmm, free_frame}
use toast_os.Pmm.Frames.{mark}
use toast_os.Pmm.Init.{
  Entry, ready, is_usable, start_addr, end_addr, skips, scan_map, place_bitmap, free_range,
  free_entry, free_usable, place, init_pmm, all_used,
}
use toast_os.Pmm.Reserve.{
  Fits, holds, covered, dated, free_usable-skip, free_usable-keep, bytes-free_usable, init_pmm-left,
}

-- A usable region with room for the bitmap.
abbrev pub has_room : ℕ → Entry → Bool
has_room bytes ent = is_usable ent && leb bytes ent.len

-- The base of the first one.
abbrev pub host : ℕ → List Entry → Option ℕ
host bytes [] = none
host bytes (ent ∷ rest) =
    let later = host bytes rest in if has_room bytes ent then some ent.base else later

-- Frame `g` lies whole in a usable region; in the one that holds the bitmap, behind the bitmap.
abbrev pub available : (bytes g : ℕ) → List Entry → Bool
available bytes g [] = false
available bytes g (ent ∷ rest) =
    let later = available bytes g rest in
    if has_room bytes ent
    then (holds g ent && leb (ent.base + bytes) (g * 4096)) || covered g rest
    else holds g ent || later

-- No frame lies whole in two usable regions.
abbrev pub Disjoint : List Entry → Type 0
Disjoint [] = Unit
Disjoint (ent ∷ rest) = ((g : ℕ) → holds g ent ≡ true → covered g rest ≡ false) × Disjoint rest

pub available-covered :
    (bytes g : ℕ) (es : List Entry) → covered g es ≡ false → available bytes g es ≡ false
available-covered bytes g [] none' = refl
available-covered bytes g (ent ∷ rest) none' = elim (Bool-cases (has_room bytes ent)) [
  | inl room ↦ rw room (ground (arith, none'))
  | inr full ↦ rw full (ground (arith, none', available-covered bytes g rest))
]

-- What `place_bitmap` makes of the map.
pub record Placed (bytes at : ℕ) (es left : List Entry) : Type 0 where
  pub hosted : host bytes es ≡ some at
  pub fits : All Fits left
  pub disjoint : Disjoint es → Disjoint left
  pub frames : (g : ℕ) → covered g left ≡ available bytes g es

pub place_bitmap-Placed :
    (bytes : ℕ) (es : List Entry) {at : ℕ} {left : List Entry}
    → All Fits es
    → place_bitmap bytes es ≡ some (at, left)
    → Placed bytes at es left
unfolding place_bitmap
place_bitmap-Placed bytes [] h e = cc
place_bitmap-Placed bytes (ent ∷ rest) {at} {left} h e = elim (Bool-cases (has_room bytes ent)) [
  | inl room ↦
      let base : u64 (ent.base + bytes) ≡ ent.base + bytes = ground (arith, room, h.0) in
      let cut : Entry = record ent { base = u64 (ent.base + bytes); len = ent.len - bytes } in
      let here : some (ent.base, cut ∷ rest) ≡ some (at, left) = rw room at e in
      let at' : ent.base ≡ at = cc here in
      let left' : cut ∷ rest ≡ left = cc here in
      rw (sym at', sym left')
        (record {
          hosted = rw room refl;
          fits = (ground (arith, room, base, h.0), h.1);
          disjoint = λ d. (λ g c. d.0 g (ground (arith, room, base, h.0, c)), d.1);
          frames = λ g. rw room (ground (arith, room, base, h.0));
        })
  | inr full ↦ elim (Option-cases (place_bitmap bytes rest)) [
    | inl nowhere ↦ cc (rw (full, nowhere) at e)
    | inr ((at1, rest'), found) ↦
        let p = place_bitmap-Placed bytes rest h.1 found in
        let here : some (at1, ent ∷ rest') ≡ some (at, left) = rw (full, found) at e in
        let at' : at1 ≡ at = cc here in
        let left' : ent ∷ rest' ≡ left = cc here in
        rw (sym at', sym left')
          (record {
            hosted = rw full p.hosted;
            fits = (h.0, p.fits);
            disjoint =
                λ d. (λ g c. p.frames g ∙ available-covered bytes g rest (d.0 g c), p.disjoint d.1);
            frames = λ g. rw full (ap (λ b. holds g ent || b) (p.frames g));
          })
  ]
]

-- The loops leave the place of the bitmap alone.
phys-free_range : (n a end : ℕ) (pmm : Pmm) → (free_range n a end pmm).bitmap_phys ≡ pmm.bitmap_phys
unfolding free_range
phys-free_range zero a end pmm = refl
phys-free_range (suc n) a end pmm =
    ground (arith, phys-free_range n (u64 (a + 4096)) end (free_frame pmm a), phys_frame)
  where
    phys_frame : (free_frame pmm a).bitmap_phys ≡ pmm.bitmap_phys
    phys_frame = refl

phys-free_usable :
    (es : List Entry) (first : Bool) (pmm : Pmm)
    → (free_usable es first pmm).bitmap_phys ≡ pmm.bitmap_phys
unfolding free_usable free_entry
phys-free_usable [] first pmm = refl
phys-free_usable (ent ∷ es) first pmm = elim (Bool-cases (skips ent)) [
  | inl skip ↦ rw (free_usable-skip ent es first pmm skip) (phys-free_usable es first pmm)
  | inr keep ↦ rw (free_usable-keep ent es first pmm keep) (
      phys-free_usable es true _
      ∙ phys-free_range _ (start_addr ent) (end_addr ent) (dated ent first pmm)
      ∙ ground arith)
]

-- The highest address of the map: the base of its first region, or the end of one that is usable or
-- that the boot loader gives back.
abbrev pub ends_at : Entry → ℕ
ends_at ent = if (ent.typ == 0) || (ent.typ == 5) then ent.base + ent.len else 0

abbrev pub highest_end : List Entry → ℕ
highest_end [] = 0
highest_end (ent ∷ rest) = max (ends_at ent) (highest_end rest)

abbrev pub highest : Entry × List Entry → ℕ
highest (first, rest) = max first.base (highest_end (first ∷ rest))

scan_map-highest :
    (es : List Entry) (kernel_end max_mem : ℕ)
    → All Fits es
    → (scan_map es kernel_end max_mem).1 ≡ max max_mem (highest_end es)
unfolding scan_map
scan_map-highest [] kernel_end max_mem fits = omega arith
scan_map-highest (ent ∷ es) kernel_end max_mem fits =
    let whole : u64 (ent.base + ent.len) ≡ ent.base + ent.len = omega (arith, fits.0) in
    scan_map-highest es _ _ fits.1 ∙ elim (Bool-cases ((ent.typ == 0) || (ent.typ == 5))) [
      | inl counts ↦ elim (Bool-cases (ltb max_mem (ent.base + ent.len))) [
        | inl more ↦ rw (whole, counts, more) (ground (arith, more))
        | inr less ↦ rw (whole, counts, less) (ground (arith, less))
      ]
      | inr other ↦ rw other (ground arith)
    ]

-- The highest address that the scan finds.
abbrev pub scanned : Entry × List Entry → ℕ
scanned (first, rest) = (scan_map (first ∷ rest) 0 first.base).1

-- An `init_pmm` that succeeds has placed the bitmap.
pub init_pmm-Placed :
    (hhdm : ℕ) (kaddr : ℕ × ℕ) (first : Entry) (rest : List Entry) {pmm : Pmm} {left : List Entry}
    → init_pmm (some hhdm) (some kaddr) (some (first, rest)) ≡ ready (pmm, left)
    → All Fits (first ∷ rest)
    → (pmm.bitmap_bytes ≡ scanned (first, rest) / 4096 / 8)
      × Placed pmm.bitmap_bytes pmm.bitmap_phys (first ∷ rest) left
      × (pmm
          ≡ free_usable left false (
              all_used hhdm kaddr.0 kaddr.1
                (scan_map (first ∷ rest) 0 first.base).0
                pmm.bitmap_phys
                (scanned (first, rest) / 4096)))
unfolding init_pmm place
init_pmm-Placed hhdm (kphys, kvirt) first rest {pmm} {left} e fits =
    let (kernel_end, max_mem) = scan_map (first ∷ rest) 0 first.base in
    elim (Bool-cases (kernel_end == 0)) [
      | inl bad ↦ ground arith
      | inr good ↦ elim (Option-cases (place_bitmap (max_mem / 4096 / 8) (first ∷ rest))) [
        | inl no_room ↦ cc (rw (good, place, no_room) at e)
        | inr ((at, left'), room) ↦
            let fresh = all_used hhdm kphys kvirt kernel_end at (max_mem / 4096) in
            let here : ready (free_usable left' false fresh, left') ≡ ready (pmm, left) =
              rw (good, place, room) at e in
            let is : free_usable left' false fresh ≡ pmm = cc here in
            let left≡ : left' ≡ left = cc here in
            let p = place_bitmap-Placed (max_mem / 4096 / 8) (first ∷ rest) fits room in
            let bytes : pmm.bitmap_bytes ≡ max_mem / 4096 / 8 =
              ap (λ (z : Pmm). z.bitmap_bytes) (sym is) ∙ bytes-free_usable left' false fresh in
            let phys : pmm.bitmap_phys ≡ at =
              ap (λ (z : Pmm). z.bitmap_phys) (sym is) ∙ phys-free_usable left' false fresh in
            (
              bytes,
              subst (λ b. Placed b pmm.bitmap_phys (first ∷ rest) left) (sym bytes)
                  (subst (λ a. Placed (max_mem / 4096 / 8) a (first ∷ rest) left) (sym phys)
                    (subst (Placed (max_mem / 4096 / 8) at (first ∷ rest)) left≡ p)),
              sym is
                  ∙ ap₂
                      (λ l a.
                        free_usable l false
                          (all_used hhdm kphys kvirt kernel_end a (max_mem / 4096)))
                      left≡ (sym phys),
            )
      ]
    ]

pub scanned-highest :
    (first : Entry) (rest : List Entry)
    → All Fits (first ∷ rest)
    → scanned (first, rest) ≡ highest (first, rest)
scanned-highest first rest fits = scan_map-highest (first ∷ rest) 0 first.base fits

-- After init_pmm succeeds on a memory map whose regions do not wrap, the bitmap has a bit for each
-- frame below the highest address, which is the base of the first region or the end of one that is
-- usable or that the boot loader gives back, rounded down to whole bytes; it lies at the base of
-- the first usable region with room for it; and a frame of the bitmap is free exactly when it lies
-- whole in a usable region of the map, in the region of the bitmap behind the bitmap.
pub init_pmm_lem :
    (hhdm : ℕ) (kaddr : ℕ × ℕ) (memmap : Entry × List Entry) {pmm : Pmm} {left : List Entry} (g : ℕ)
    → init_pmm (some hhdm) (some kaddr) (some memmap) ≡ ready (pmm, left)
    → All Fits (memmap.0 ∷ memmap.1)
    → g < pmm.bitmap_bytes * 8
    → (pmm.bitmap_bytes ≡ highest memmap / 4096 / 8)
      × (host pmm.bitmap_bytes (memmap.0 ∷ memmap.1) ≡ some pmm.bitmap_phys)
      × (mark pmm.b_map g ≡ (if available pmm.bitmap_bytes g (memmap.0 ∷ memmap.1) then 0 else 1))
init_pmm_lem hhdm kaddr (first, rest) {pmm} {left} g e fits inside =
    let (bytes, placed, _) = init_pmm-Placed hhdm kaddr first rest e fits in
    (
      bytes ∙ ap (λ h. h / 4096 / 8) (scanned-highest first rest fits),
      placed.hosted,
      init_pmm-left hhdm kaddr (first, rest) g e placed.fits inside
          ∙ ap (λ b. if b then 0 else 1) (placed.frames g),
    )
