-- ===== src/Video/Tests.antt =====
-- The theorems on kernel/framebuffer.c and kernel/font.c at a screen of 32 by 32 pixels.
use toast_os.Prelude.{◌≡◌, refl, arith}
use toast_os.Video.{Screen, Psf2Header, font_draw_char}
use toast_os.Video.Pixels.{IsFramebuffer, pixel}
use toast_os.Video.Glyphs.{pixel-font_draw_char}

abbrev dark : Screen
dark = record {
  fb = record { addr = 4096; width = 32; height = 32; pitch = 128; bpp = 32 };
  mem = λ a. 0;
}

dark-IsFramebuffer : IsFramebuffer dark.fb
dark-IsFramebuffer = record { rows_apart = omega arith; small = omega arith }

-- A font in which every line of every character is the byte 0x18.
abbrev stripes : Psf2Header
stripes = record { magic = 0x864ab572; numglyph = 256; bytesperglyph = 16; height = 16; width = 8 }

pixel-font_draw_char_example : pixel (font_draw_char stripes (λ b. 0x18) dark 65 8 16 7 1) 11 20 ≡ 7
pixel-font_draw_char_example =
    pixel-font_draw_char 11 20 stripes (λ b. 0x18) 65 8 16 7 1 1 dark dark-IsFramebuffer
      (omega arith) (omega arith) (omega arith) (omega arith) refl (omega arith) (omega arith)
      (omega arith) (omega arith) (omega arith)
