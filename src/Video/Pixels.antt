-- ===== src/Video/Pixels.antt =====
-- What the pixels of the screen show.
use mathlib.Core.Path.{subst}
use toast_os.Prelude.{
  ℕ, zero, suc, ◌+◌, ◌-◌, ◌*◌, ◌^◌, ◌≤◌, ◌<◌, ◌≡◌, refl, ◌∙◌, ap, sym, false, ◌==◌, if◌then◌else◌,
  ltb, leb, ◌&&◌, arith, inl, inr, lt_or_le, Bool-cases, ==_iff, ==_refl, u32, min,
}
use toast_os.Video.{
  Framebuffer, Screen, pixel_address, set_pixel, fill_row, fill_rows, fb_draw_rect,
}

-- The rows lie one behind the other, and the whole is below 4 GiB.
pub record IsFramebuffer (fb : Framebuffer) : Type 0 where
  pub rows_apart : 4 * fb.width ≤ fb.pitch
  pub small : fb.height * fb.pitch < 2 ^ 32

-- What pixel `i` of row `j` shows.
abbrev pub pixel : Screen → (i j : ℕ) → ℕ
pixel s i j = s.mem (pixel_address s.fb i j)

offset :
    (fb : Framebuffer) (j : ℕ)
    → IsFramebuffer fb
    → j < fb.height
    → u32 (j * fb.pitch) ≡ j * fb.pitch
offset fb j v lt = grind (arith, v.small)

pub row_next : (p j y : ℕ) → j < y → j * p + p ≤ y * p
row_next p j y lt = grind arith

-- Two pixels of the screen lie at one address only if they are one.
same_place :
    (p w i j x y : ℕ)
    → 4 * w ≤ p
    → i < w
    → x < w
    → j * p + 4 * i ≡ y * p + 4 * x
    → (i ≡ x) × (j ≡ y)
same_place p w i j x y apart iw xw e = elim (lt_or_le j y) [
  | inl lt ↦ absurd (omega (arith, row_next p j y lt, e, apart, iw))
  | inr ge ↦ elim (lt_or_le y j) [
    | inl gt' ↦ absurd (omega (arith, row_next p y j gt', e, apart, xw))
    | inr le ↦
        let row : j ≡ y = omega (arith, ge, le) in
        let start : j * p ≡ y * p = ap (λ r. r * p) row in (omega (arith, e, start), row)
  ]
]

same_address :
    (fb : Framebuffer) (i j x y : ℕ)
    → IsFramebuffer fb
    → i < fb.width
    → j < fb.height
    → x < fb.width
    → y < fb.height
    → (pixel_address fb i j == pixel_address fb x y) ≡ ((j == y) && (i == x))
same_address fb i j x y v iw jh xw yh =
    let a = offset fb j v jh in
    let b = offset fb y v yh in
    elim (Bool-cases ((j == y) && (i == x))) [
      | inl one ↦
          let row : j ≡ y = ground (arith, one) in
          let col : i ≡ x = ground (arith, one) in
          rw (one, row, col) (==_refl (pixel_address fb x y))
      | inr two ↦ elim (Bool-cases (pixel_address fb i j == pixel_address fb x y)) [
        | inl meet ↦
            let at : pixel_address fb i j ≡ pixel_address fb x y = (==_iff _ _).0 meet in
            let (col, row) =
              same_place fb.pitch fb.width i j x y v.rows_apart iw xw (omega (arith, at, a, b)) in
            absurd (ground (arith, two, col, row))
        | inr apart ↦ rw two apart
      ]
    ]

fb-fill_row : (n col row colour : ℕ) (s : Screen) → (fill_row n col row colour s).fb ≡ s.fb
unfolding fill_row
fb-fill_row zero col row colour s = refl
fb-fill_row (suc n) col row colour s =
    fb-fill_row n (col + 1) row colour (set_pixel s col row colour)

module _ (i j : ℕ) where
  abbrev pub OnScreen : Framebuffer → Type 0
  OnScreen fb = IsFramebuffer fb × (i < fb.width) × (j < fb.height)

  pub pixel-set_pixel :
      (s : Screen) (x y color : ℕ)
      → OnScreen s.fb
      → x < s.fb.width
      → y < s.fb.height
      → pixel (set_pixel s x y color) i j ≡ (if (j == y) && (i == x) then color else pixel s i j)
  pixel-set_pixel s x y color (v, iw, jh) xw yh =
      ap (λ b. if b then color else pixel s i j) (same_address s.fb i j x y v iw jh xw yh)

  pixel-fill_row :
      (n col row colour : ℕ) (s : Screen)
      → OnScreen s.fb
      → (0 < n → col + n ≤ s.fb.width)
      → row < s.fb.height
      → pixel (fill_row n col row colour s) i j
        ≡ (if (j == row) && (leb col i && ltb i (col + n)) then colour else pixel s i j)
  unfolding fill_row
  pixel-fill_row zero col row colour s in' fits below =
      let none' : ((j == row) && (leb col i && ltb i (col + 0))) ≡ false = ground arith in
      rw none' refl
  pixel-fill_row (suc n) col row colour s in' fits below =
      pixel-fill_row n (col + 1) row colour (set_pixel s col row colour) in'
        (λ pos. omega (arith, fits (omega arith))) below
      ∙ ap (λ c. if (j == row) && (leb (col + 1) i && ltb i (col + 1 + n)) then colour else c)
          (pixel-set_pixel s col row colour in' (omega (arith, fits (omega arith))) below)
      ∙ ground arith

  pixel-fill_rows :
      (m row n x colour : ℕ) (s : Screen)
      → OnScreen s.fb
      → (0 < n → x + n ≤ s.fb.width)
      → (0 < m → row + m ≤ s.fb.height)
      → pixel (fill_rows m row n x colour s) i j ≡ (
          if (leb row j && ltb j (row + m)) && (leb x i && ltb i (x + n))
          then colour
          else pixel s i j)
  unfolding fill_rows
  pixel-fill_rows zero row n x colour s in' wide high =
      let none' : ((leb row j && ltb j (row + 0)) && (leb x i && ltb i (x + n))) ≡ false =
        ground arith in
      rw none' refl
  pixel-fill_rows (suc m) row n x colour s in' wide high =
      let s1 : Screen = fill_row n x row colour s in
      let same : s1.fb ≡ s.fb = fb-fill_row n x row colour s in
      let fits : row + suc m ≤ s.fb.height = high (omega arith) in
      pixel-fill_rows m (row + 1) n x colour s1 (subst OnScreen (sym same) in')
        (λ pos. subst (λ f. x + n ≤ f.width) (sym same) (wide pos))
        (λ pos. subst (λ f. row + 1 + m ≤ f.height) (sym same) (omega (arith, fits)))
      ∙ ap
          (λ c.
            if (leb (row + 1) j && ltb j (row + 1 + m)) && (leb x i && ltb i (x + n))
            then colour
            else c)
          (pixel-fill_row n x row colour s in' wide (omega (arith, fits)))
      ∙ ground arith

  -- On a framebuffer whose rows lie apart and below 4 GiB, for a rectangle whose far edges do not
  -- pass 2^32, fb_draw_rect colours exactly the pixels of the screen that lie in the rectangle.
  pub pixel-fb_draw_rect :
      (x y w h colour : ℕ) (s : Screen)
      → IsFramebuffer s.fb
      → i < s.fb.width
      → j < s.fb.height
      → x + w < 2 ^ 32
      → y + h < 2 ^ 32
      → pixel (fb_draw_rect s x y w h colour) i j
        ≡ (if (leb y j && ltb j (y + h)) && (leb x i && ltb i (x + w)) then colour else pixel s i j)
  unfolding fb_draw_rect
  pixel-fb_draw_rect x y w h colour s v iw jh xw yh =
      let across : u32 (x + w) ≡ x + w = omega (arith, xw) in
      let down : u32 (y + h) ≡ y + h = omega (arith, yh) in
      rw (across, down)
        (pixel-fill_rows (min (y + h) s.fb.height - y) y (min (x + w) s.fb.width - x) x colour s
            (v, iw, jh) (λ pos. omega (arith, pos)) (λ pos. omega (arith, pos))
          ∙ ground (arith, iw, jh))
