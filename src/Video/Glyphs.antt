-- ===== src/Video/Glyphs.antt =====
-- What a character looks like.
use mathlib.Core.Path.{subst}
use toast_os.Prelude.{
  ℕ, zero, suc, ◌+◌, ◌-◌, ◌*◌, ◌^◌, ◌≤◌, ◌<◌, ◌≡◌, refl, ◌∙◌, ap, ap₂, sym, true, false, ◌==◌,
  if◌then◌else◌, ltb, leb, ◌||◌, ◌&&◌, arith, inl, inr, Bool-cases, u32,
}
use toast_os.Video.{
  Screen, fb_put_pixel, Psf2Header, glyph_bit, draw_glyph_row, draw_glyph_rows, font_draw_char,
}
use toast_os.Video.Pixels.{IsFramebuffer, OnScreen, pixel, pixel-set_pixel}
use toast_os.Video.GlyphBits.{bit_of_glyph, glyph_bit_lem}

fb-fb_put_pixel : (s : Screen) (x y color : ℕ) → (fb_put_pixel s x y color).fb ≡ s.fb
unfolding fb_put_pixel
fb-fb_put_pixel s x y color = elim (Bool-cases (leb s.fb.width x || leb s.fb.height y)) [
  | inl off ↦ rw off refl
  | inr on ↦ rw on refl
]

fb-draw_glyph_row :
    (hdr : Psf2Header) (glyph : ℕ → ℕ) (n col row px py fg bg : ℕ) (s : Screen)
    → (draw_glyph_row hdr glyph n col row px py fg bg s).fb ≡ s.fb
unfolding draw_glyph_row
fb-draw_glyph_row hdr glyph zero col row px py fg bg s = refl
fb-draw_glyph_row hdr glyph (suc n) col row px py fg bg s =
    let c : ℕ = if glyph_bit hdr glyph row col then fg else bg in
    fb-draw_glyph_row hdr glyph n (col + 1) row px py fg bg
      (fb_put_pixel s (u32 (px + col)) (u32 (py + row)) c)
    ∙ fb-fb_put_pixel s (u32 (px + col)) (u32 (py + row)) c

module _ (i j : ℕ) where
  pixel-fb_put_pixel :
      (s : Screen) (x y color : ℕ)
      → OnScreen i j s.fb
      → pixel (fb_put_pixel s x y color) i j ≡ (if (j == y) && (i == x) then color else pixel s i j)
  unfolding fb_put_pixel
  pixel-fb_put_pixel s x y color in' = elim (Bool-cases (leb s.fb.width x || leb s.fb.height y)) [
    | inl off ↦
        let miss : ((j == y) && (i == x)) ≡ false = ground (arith, off, in'.1, in'.2) in
        rw (off, miss) refl
    | inr on ↦ rw on (pixel-set_pixel i j s x y color in' (ground (arith, on)) (ground (arith, on)))
  ]

  module _ (hdr : Psf2Header) (glyph : ℕ → ℕ) (px py fg bg : ℕ) where
    -- The colour that pixel `i` of row `j` has in the glyph.
    abbrev pub ink : ℕ
    ink = if glyph_bit hdr glyph (j - py) (i - px) then fg else bg

    pixel-draw_glyph_row :
        (n col row : ℕ) (s : Screen)
        → OnScreen i j s.fb
        → px + col + n < 2 ^ 32
        → py + row < 2 ^ 32
        → pixel (draw_glyph_row hdr glyph n col row px py fg bg s) i j ≡ (
            if (j == py + row) && (leb (px + col) i && ltb i (px + col + n))
            then ink
            else pixel s i j)
    unfolding draw_glyph_row
    pixel-draw_glyph_row zero col row s in' wide high =
        let none' : ((j == py + row) && (leb (px + col) i && ltb i (px + col + 0))) ≡ false =
          ground arith in
        rw none' refl
    pixel-draw_glyph_row (suc n) col row s in' wide high =
        let c : ℕ = if glyph_bit hdr glyph row col then fg else bg in
        let s1 : Screen = fb_put_pixel s (u32 (px + col)) (u32 (py + row)) c in
        let same : s1.fb ≡ s.fb = fb-fb_put_pixel s (u32 (px + col)) (u32 (py + row)) c in
        let x : u32 (px + col) ≡ px + col = omega (arith, wide) in
        let y : u32 (py + row) ≡ py + row = omega (arith, high) in
        let here : pixel s1 i j ≡ (if (j == py + row) && (i == px + col) then c else pixel s i j) =
          pixel-fb_put_pixel s (u32 (px + col)) (u32 (py + row)) c in'
          ∙ ap₂ (λ a b. if (j == b) && (i == a) then c else pixel s i j) x y in
        pixel-draw_glyph_row n (col + 1) row s1 (subst (OnScreen i j) (sym same) in')
          (omega (arith, wide)) high
        ∙ ap
            (λ o.
              if (j == py + row) && (leb (px + (col + 1)) i && ltb i (px + (col + 1) + n))
              then ink
              else o)
            here
        ∙ elim (Bool-cases ((j == py + row) && (i == px + col))) [
          | inl hit ↦
              let row' : j - py ≡ row = ground (arith, hit) in
              let col' : i - px ≡ col = ground (arith, hit) in
              let past : ((j == py + row) && (leb (px + (col + 1)) i && ltb i (px + (col + 1) + n)))
                  ≡ false =
                ground (arith, hit) in
              let in'' : ((j == py + row) && (leb (px + col) i && ltb i (px + col + suc n)))
                  ≡ true =
                ground (arith, hit) in
              rw (hit, past, in'')
                (ap₂ (λ r k. if glyph_bit hdr glyph r k then fg else bg) (sym row') (sym col'))
          | inr miss ↦
              let equal : ((j == py + row)
                    && (leb (px + (col + 1)) i && ltb i (px + (col + 1) + n)))
                  ≡ ((j == py + row) && (leb (px + col) i && ltb i (px + col + suc n))) =
                ground (arith, miss) in
              rw (miss, equal) refl
        ]

    pixel-draw_glyph_rows :
        (n row : ℕ) (s : Screen)
        → OnScreen i j s.fb
        → px + hdr.width < 2 ^ 32
        → py + row + n < 2 ^ 32
        → pixel (draw_glyph_rows hdr glyph n row px py fg bg s) i j ≡ (
            if (leb (py + row) j && ltb j (py + row + n)) && (leb px i && ltb i (px + hdr.width))
            then ink
            else pixel s i j)
    unfolding draw_glyph_rows
    pixel-draw_glyph_rows zero row s in' wide high =
        let none' : ((leb (py + row) j && ltb j (py + row + 0))
              && (leb px i && ltb i (px + hdr.width)))
            ≡ false =
          ground arith in
        rw none' refl
    pixel-draw_glyph_rows (suc n) row s in' wide high =
        let s1 : Screen = draw_glyph_row hdr glyph hdr.width 0 row px py fg bg s in
        let same : s1.fb ≡ s.fb = fb-draw_glyph_row hdr glyph hdr.width 0 row px py fg bg s in
        pixel-draw_glyph_rows n (row + 1) s1 (subst (OnScreen i j) (sym same) in') wide
          (omega (arith, high))
        ∙ ap
            (λ o.
              if (leb (py + (row + 1)) j && ltb j (py + (row + 1) + n))
                && (leb px i && ltb i (px + hdr.width))
              then ink
              else o)
            (pixel-draw_glyph_row hdr.width 0 row s in' (omega (arith, wide)) (omega (arith, high)))
        ∙ ground arith

drawn :
    (i j : ℕ) (hdr : Psf2Header) (glyphs : ℕ → ℕ) (c px py fg bg : ℕ) (s : Screen)
    → IsFramebuffer s.fb
    → i < s.fb.width
    → j < s.fb.height
    → px + hdr.width < 2 ^ 32
    → py + hdr.height < 2 ^ 32
    → hdr.magic ≡ 0x864ab572
    → c < hdr.numglyph
    → pixel (font_draw_char hdr glyphs s c px py fg bg) i j ≡ (
        if (leb py j && ltb j (py + hdr.height)) && (leb px i && ltb i (px + hdr.width))
        then (if glyph_bit hdr (λ b. glyphs (u32 (c * hdr.bytesperglyph) + b)) (j - py) (i - px)
            then fg
            else bg)
        else pixel s i j)
unfolding font_draw_char
drawn i j hdr glyphs c px py fg bg s v iw jh wide high magic known =
    let glyph : ℕ → ℕ = λ b. glyphs (u32 (c * hdr.bytesperglyph) + b) in
    let font : (hdr.magic == 0x864ab572) ≡ true = ground (arith, magic) in
    let has : leb hdr.numglyph c ≡ false = ground (arith, known) in
    rw (font, has)
      (pixel-draw_glyph_rows i j hdr glyph px py fg bg hdr.height 0 s (v, iw, jh) wide
          (omega (arith, high))
        ∙ ap
            (λ top.
              if (leb top j && ltb j (top + hdr.height)) && (leb px i && ltb i (px + hdr.width))
              then (if glyph_bit hdr glyph (j - py) (i - px) then fg else bg)
              else pixel s i j)
            {x = py + 0} {y = py} (omega arith))

-- On a framebuffer whose rows lie apart and below 4 GiB, with a font of the right magic number
-- that has the character, whose lines take `stride` bytes each, the fewest that have room for the
-- width, where the width is below 2^32 - 7 and a glyph's lines take less than 4 GiB, and at a
-- position from which the character's box does not pass 2^32: font_draw_char gives every pixel of
-- the box that is on the screen the ink or the paper by its bit in the glyph, read as one sequence
-- of bits from the highest bit of the first byte on, and leaves every other pixel of the screen
-- alone.
pub pixel-font_draw_char :
    (i j : ℕ) (hdr : Psf2Header) (glyphs : ℕ → ℕ) (c px py fg bg stride : ℕ) (s : Screen)
    → IsFramebuffer s.fb
    → i < s.fb.width
    → j < s.fb.height
    → px + hdr.width < 2 ^ 32
    → py + hdr.height < 2 ^ 32
    → hdr.magic ≡ 0x864ab572
    → c < hdr.numglyph
    → hdr.width ≤ 8 * stride
    → 8 * stride < hdr.width + 8
    → hdr.width + 7 < 2 ^ 32
    → hdr.height * stride < 2 ^ 32
    → pixel (font_draw_char hdr glyphs s c px py fg bg) i j ≡ (
        if (leb py j && ltb j (py + hdr.height)) && (leb px i && ltb i (px + hdr.width))
        then (if bit_of_glyph
                (λ b. glyphs (u32 (c * hdr.bytesperglyph) + b))
                (8 * ((j - py) * stride) + (i - px))
              == 1
            then fg
            else bg)
        else pixel s i j)
pixel-font_draw_char i j hdr glyphs c px py fg bg stride s v iw jh wide high magic known room tight
      small fits =
    let glyph : ℕ → ℕ = λ b. glyphs (u32 (c * hdr.bytesperglyph) + b) in
    drawn i j hdr glyphs c px py fg bg s v iw jh wide high magic known
    ∙ elim (Bool-cases
        ((leb py j && ltb j (py + hdr.height)) && (leb px i && ltb i (px + hdr.width)))) [
          | inl boxed ↦
              let lit : glyph_bit hdr glyph (j - py) (i - px)
                  ≡ (bit_of_glyph glyph (8 * ((j - py) * stride) + (i - px)) == 1) =
                glyph_bit_lem hdr glyph stride (j - py) (i - px) room tight small fits
                  (ground (arith, boxed)) (ground (arith, boxed)) in
              rw boxed (ap (λ b. if b then fg else bg) lit)
          | inr out ↦ rw out refl
        ]
