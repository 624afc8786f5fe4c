-- ===== src/Video/GlyphBits.antt =====
-- A glyph of the font as one sequence of bits.
use toast_os.Prelude.{
  ℕ, zero, suc, ◌+◌, ◌-◌, ◌*◌, ◌^◌, ◌/◌, ◌%◌, ◌≤◌, not, bit_and, ◌<◌, ◌≡◌, refl, ◌∙◌, ap, ap₂, ◌==◌,
  arith, inl, inr, Bool-cases, u32,
}
use native.Mathlib.Nat.{one-le-pow}
use toast_os.Prelude.Bits.{bit, bit-le_one, and-pow}
use toast_os.Video.{Psf2Header, glyph_bit}
use toast_os.Video.Pixels.{row_next}

-- The bits of a glyph in their order, each byte from its highest bit down.
abbrev pub bit_of_glyph : (glyph : ℕ → ℕ) → ℕ → ℕ
bit_of_glyph glyph n = bit (glyph (n / 8)) (7 - n % 8)

mask : (k : ℕ) → k < 8 → 0x80 / 2 ^ k ≡ 2 ^ (7 - k)
mask zero lt = refl
mask (suc zero) lt = refl
mask (suc (suc zero)) lt = refl
mask (suc (suc (suc zero))) lt = refl
mask (suc (suc (suc (suc zero)))) lt = refl
mask (suc (suc (suc (suc (suc zero))))) lt = refl
mask (suc (suc (suc (suc (suc (suc zero)))))) lt = refl
mask (suc (suc (suc (suc (suc (suc (suc zero))))))) lt = refl
mask (suc (suc (suc (suc (suc (suc (suc (suc k)))))))) lt = absurd (omega arith)

masked : (b k : ℕ) → k < 8 → not (bit_and b (0x80 / 2 ^ k) == 0) ≡ (bit b (7 - k) == 1)
masked b k lt =
    let value = and-pow (7 - k) b in
    elim (Bool-cases (bit b (7 - k) == 1)) [
      | inl set ↦
          let positive = one-le-pow (7 - k) 2 (omega arith) in
          let one : bit b (7 - k) ≡ 1 = ground (arith, set) in
          let is : bit_and b (2 ^ (7 - k)) ≡ 2 ^ (7 - k) =
            value ∙ ap (λ n. n * 2 ^ (7 - k)) one ∙ omega arith in
          rw (mask k lt, set, is) (ground (arith, positive))
      | inr clear ↦
          let none : bit b (7 - k) ≡ 0 = ground (arith, clear, bit-le_one (7 - k) b) in
          let is : bit_and b (2 ^ (7 - k)) ≡ 0 =
            value ∙ ap (λ n. n * 2 ^ (7 - k)) none ∙ omega arith in
          rw (mask k lt, clear, is) refl
    ]

-- A line of a glyph takes `stride` bytes, the fewest that have room for its pixels.
pub glyph_bit_lem :
    (hdr : Psf2Header) (glyph : ℕ → ℕ) (stride row col : ℕ)
    → hdr.width ≤ 8 * stride
    → 8 * stride < hdr.width + 8
    → hdr.width + 7 < 2 ^ 32
    → hdr.height * stride < 2 ^ 32
    → row < hdr.height
    → col < hdr.width
    → glyph_bit hdr glyph row col ≡ (bit_of_glyph glyph (8 * (row * stride) + col) == 1)
glyph_bit_lem hdr glyph stride row col room tight small fits r c =
    let bytes : u32 (hdr.width + 7) / 8 ≡ stride = omega arith in
    let rows : row * stride + stride ≤ hdr.height * stride = row_next stride row hdr.height r in
    let at : u32 (row * (u32 (hdr.width + 7) / 8) + col / 8) ≡ (8 * (row * stride) + col) / 8 =
      ap (λ b. u32 (row * b + col / 8)) bytes ∙ omega arith in
    let low : col % 8 ≡ (8 * (row * stride) + col) % 8 = omega arith in
    masked (glyph (u32 (row * (u32 (hdr.width + 7) / 8) + col / 8))) (col % 8) (omega arith)
    ∙ ap₂ (λ a k. bit (glyph a) (7 - k) == 1) at low
