-- ===== src/Video.antt =====
-- The framebuffer and the font, kernel/framebuffer.c and kernel/font.c.
--
-- The memory is a function from the address of a 32-bit word to its value; the font file is a
-- header and the bytes of its glyphs.
pub mod GlyphBits
pub mod Glyphs
pub mod Pixels
mod Tests
use toast_os.Prelude.{
  ℕ, zero, suc, ◌+◌, ◌-◌, ◌*◌, ◌/◌, ◌%◌, ◌^◌, Bool, true, false, ◌==◌, if◌then◌else◌, leb, not,
  ◌||◌, u32, min, bit_and,
}

pub record Framebuffer : Type 0 where
  pub addr : ℕ
  pub width : ℕ
  pub height : ℕ
  pub pitch : ℕ
  pub bpp : ℕ

pub record Screen : Type 0 where
  pub fb : Framebuffer
  pub mem : ℕ → ℕ

-- From the fields of the boot loader's `limine_framebuffer`.
pub fb_init : Screen → (address width height pitch bpp : ℕ) → Screen
fb_init s address width height pitch bpp = record s {
  fb = record {
    addr = address;
    width = u32 width;
    height = u32 height;
    pitch = u32 pitch;
    bpp = bpp;
  };
}

-- `&row[x]`
abbrev pub pixel_address : Framebuffer → (x y : ℕ) → ℕ
pixel_address fb x y = fb.addr + u32 (y * fb.pitch) + 4 * x

abbrev pub set_pixel : Screen → (x y color : ℕ) → Screen
set_pixel s x y color = record s {
  mem = λ a. if a == pixel_address s.fb x y then color else s.mem a;
}

unfoldable pub fb_put_pixel : Screen → (x y color : ℕ) → Screen
fb_put_pixel s x y color =
    if leb s.fb.width x || leb s.fb.height y then s else set_pixel s x y color

-- `n` pixels of a row from `col` on.
unfoldable pub fill_row : (n col row colour : ℕ) → Screen → Screen
fill_row zero col row colour s = s
fill_row (suc n) col row colour s = fill_row n (col + 1) row colour (set_pixel s col row colour)

-- `m` rows from `row` on, `n` pixels from `x` on in each.
unfoldable pub fill_rows : (m row n x colour : ℕ) → Screen → Screen
unfolding fill_row
fill_rows zero row n x colour s = s
fill_rows (suc m) row n x colour s = fill_rows m (row + 1) n x colour (fill_row n x row colour s)

unfoldable pub fb_draw_rect : Screen → (x y w h colour : ℕ) → Screen
unfolding fill_rows
fb_draw_rect s x y w h colour =
    fill_rows (min (u32 (y + h)) s.fb.height - y) y (min (u32 (x + w)) s.fb.width - x) x colour s

unfoldable pub fb_clear : Screen → (color : ℕ) → Screen
unfolding fill_rows
fb_clear s color = fill_rows s.fb.height 0 s.fb.width 0 color s

pub record Psf2Header : Type 0 where
  pub magic : ℕ
  pub numglyph : ℕ
  pub bytesperglyph : ℕ
  pub height : ℕ
  pub width : ℕ

-- Whether pixel `col` of line `row` of a glyph is set; `glyph` has its bytes.
abbrev pub glyph_bit : Psf2Header → (glyph : ℕ → ℕ) → (row col : ℕ) → Bool
glyph_bit hdr glyph row col =
    not (
      bit_and (glyph (u32 (row * (u32 (hdr.width + 7) / 8) + col / 8))) (0x80 / 2 ^ (col % 8)) == 0)

unfoldable pub draw_glyph_row : Psf2Header → (ℕ → ℕ) → (n col row px py fg bg : ℕ) → Screen → Screen
unfolding fb_put_pixel
draw_glyph_row hdr glyph zero col row px py fg bg s = s
draw_glyph_row hdr glyph (suc n) col row px py fg bg s =
    draw_glyph_row hdr glyph n (col + 1) row px py fg bg (
      fb_put_pixel s (u32 (px + col)) (u32 (py + row))
        (if glyph_bit hdr glyph row col then fg else bg))

unfoldable pub draw_glyph_rows : Psf2Header → (ℕ → ℕ) → (n row px py fg bg : ℕ) → Screen → Screen
unfolding draw_glyph_row
draw_glyph_rows hdr glyph zero row px py fg bg s = s
draw_glyph_rows hdr glyph (suc n) row px py fg bg s =
    draw_glyph_rows hdr glyph n (row + 1) px py fg bg
      (draw_glyph_row hdr glyph hdr.width 0 row px py fg bg s)

-- `glyphs` are the bytes after the header, `c` an unsigned character.
unfoldable pub font_draw_char :
    Psf2Header → (glyphs : ℕ → ℕ) → Screen → (c px py fg bg : ℕ) → Screen
unfolding draw_glyph_rows
font_draw_char hdr glyphs s c px py fg bg =
    let glyph_index = if leb hdr.numglyph c then 0 else c in
    let glyph : ℕ → ℕ = λ i. glyphs (u32 (glyph_index * hdr.bytesperglyph) + i) in
    if not (hdr.magic == 0x864ab572)
    then s
    else draw_glyph_rows hdr glyph hdr.height 0 px py fg bg s
