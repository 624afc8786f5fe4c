-- ===== src/Console/Text.antt =====
-- What kernel/shell/console.c does with an escape sequence and with plain text.
use toast_os.Prelude.{
  ℕ, ◌+◌, ◌-◌, ◌*◌, ◌^◌, ◌<◌, ◌≤◌, ◌≡◌, refl, ◌∙◌, ap, true, false, List, [], ◌∷◌, ◌++◌, ltb, leb,
  ◌==◌, arith, u32, get_or, length, All, ap₂, sym, append_assoc, ◌&&◌,
}
use toast_os.Console.{Console, ansi_colors, Draw, char_at, putchar, putstr, ansi_char, put_glyph}

putchar-escape :
    (con : Console) → con.ansi_state ≡ 0 → putchar con 27 ≡ record con { ansi_state = 1 }
unfolding putchar
putchar-escape con idle = let test : ltb 0 con.ansi_state ≡ false = ground arith in rw test refl

putchar-three :
    (con : Console)
    → putchar (putchar (record con { ansi_state = 1 }) 91) 51
      ≡ record con { ansi_state = 2; ansi_param = 3 }
unfolding putchar ansi_char
putchar-three con = refl

putchar-digit :
    (con : Console) (n : ℕ)
    → n < 8
    → putchar (record con { ansi_state = 2; ansi_param = 3 }) (48 + n)
      ≡ record con { ansi_state = 2; ansi_param = 30 + n }
unfolding putchar ansi_char
putchar-digit con n small =
    let digit : (leb 48 (48 + n) && leb (48 + n) 57) ≡ true = ground arith in
    let value : u32 (30 + (48 + n - 48)) ≡ 30 + n = omega arith in rw (digit, value) refl

putchar-m :
    (con : Console) (n : ℕ)
    → n < 8
    → putchar (record con { ansi_state = 2; ansi_param = 30 + n }) 109
      ≡ record con { ansi_state = 0; ansi_param = 30 + n; con_fg = get_or ansi_colors n 0 }
unfolding putchar ansi_char
putchar-m con n small =
    let some : (30 + n == 0) ≡ false = ground arith in
    let range : (leb 30 (30 + n) && leb (30 + n) 37) ≡ true = ground arith in
    let index : 30 + n - 30 ≡ n = omega arith in rw (some, range, index) refl

putchar-plain :
    (con : Console) (c : ℕ)
    → con.ansi_state ≡ 0
    → 27 < c
    → con.cursor_col < con.con_cols
    → putchar con c ≡ put_glyph con c
unfolding putchar
putchar-plain con c idle plain room =
    let test : ltb 0 con.ansi_state ≡ false = ground arith in
    let free : (con.cursor_col == con.con_cols) ≡ false = ground arith in
    let n27 : (c == 27) ≡ false = ground arith in
    let n10 : (c == 10) ≡ false = ground arith in
    let n13 : (c == 13) ≡ false = ground arith in
    let n8 : (c == 8) ≡ false = ground arith in
    let n9 : (c == 9) ≡ false = ground arith in rw (test, free, n27, n10, n13, n8, n9) refl

-- Outside an escape sequence, ESC [ 3 n m sets the colour of the text to the n-th of the eight,
-- and neither draws nor moves the cursor.
pub putstr-colour :
    (con : Console) (n : ℕ)
    → con.ansi_state ≡ 0
    → n < 8
    → putstr con (27 ∷ 91 ∷ 51 ∷ (48 + n) ∷ 109 ∷ [])
      ≡ record con { ansi_state = 0; ansi_param = 30 + n; con_fg = get_or ansi_colors n 0 }
unfolding putstr
putstr-colour con n idle small =
    let con3 = record con { ansi_state = 2; ansi_param = 3 } in
    let con4 = record con { ansi_state = 2; ansi_param = 30 + n } in
    ap (λ z. putstr z (91 ∷ 51 ∷ (48 + n) ∷ 109 ∷ [])) (putchar-escape con idle)
    ∙ ap (λ z. putstr z ((48 + n) ∷ 109 ∷ [])) (putchar-three con)
    ∙ ap (λ z. putchar z 109) (putchar-digit con n small)
    ∙ putchar-m con n small

-- A character that is drawn as it stands.
abbrev pub Plain : ℕ → Type 0
Plain c = 27 < c

-- The calls that draw `cs` from a column on, latest first.
abbrev pub glyphs : Console → ℕ → List ℕ → List Draw
glyphs con col [] = []
glyphs con col (c ∷ cs) =
    glyphs con (col + 1) cs
    ++ char_at c (u32 (col * con.font_width)) (u32 (con.cursor_row * con.font_height)) con.con_fg
        con.con_bg
      ∷ []

glyphs-put_glyph :
    (con : Console) (c col : ℕ) (cs : List ℕ) → glyphs (put_glyph con c) col cs ≡ glyphs con col cs
unfolding put_glyph
glyphs-put_glyph con c col [] = refl
glyphs-put_glyph con c col (x ∷ cs) =
    ap
      (λ l.
        l
        ++ char_at x (u32 (col * con.font_width)) (u32 (con.cursor_row * con.font_height))
            con.con_fg con.con_bg
          ∷ [])
      (glyphs-put_glyph con c (col + 1) cs)

-- Outside an escape sequence, text that fits in the row is drawn cell by cell, and the cursor is
-- behind it.
pub putstr-line :
    (cs : List ℕ) (con : Console)
    → con.ansi_state ≡ 0
    → All Plain cs
    → con.cursor_col + length cs ≤ con.con_cols
    → con.con_cols < 2 ^ 32
    → putstr con cs ≡ record con {
      cursor_col = con.cursor_col + length cs;
      drawn = glyphs con con.cursor_col cs ++ con.drawn;
    }
unfolding putstr put_glyph
putstr-line [] con idle plain room word = ap (λ n. record con { cursor_col = n }) (omega arith)
putstr-line (c ∷ cs) con idle (here, plain) room word =
    let col : u32 (con.cursor_col + 1) ≡ con.cursor_col + 1 = omega arith in
    let con1 = put_glyph con c in
    let rest = putstr-line cs con1 idle plain (omega (arith, col, room)) word in
    ap (λ z. putstr z cs) (putchar-plain con c idle here (omega (arith, room)))
    ∙ rest
    ∙ rw (col, glyphs-put_glyph con c (con.cursor_col + 1) cs)
        (ap₂ (λ n d. record con { cursor_col = n; drawn = d }) (omega arith)
          (sym (
            append_assoc (glyphs con (con.cursor_col + 1) cs)
              (char_at c (u32 (con.cursor_col * con.font_width))
                  (u32 (con.cursor_row * con.font_height)) con.con_fg con.con_bg
                ∷ [])
              con.drawn)))
