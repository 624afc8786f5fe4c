-- ===== src/Console/Cursor.antt =====
-- The cursor of kernel/shell/console.c stays on the screen.
use toast_os.Prelude.{
  ℕ, zero, suc, ◌+◌, ◌-◌, ◌%◌, ◌^◌, ◌<◌, ◌≤◌, ◌≡◌, refl, ap, true, false, List, [], ◌∷◌, ltb, ◌==◌,
  arith, sub32, inl, inr, Bool-cases, lt_or_le,
}
use toast_os.Console.{
  Console, clear_cells, terminal_scroll, new_line, ansi_char, put_glyph, wrap_line, put_tab,
  backspace, putchar, putstr, Draw, draw_char_at, draw,
}

-- The cursor is in a row of the screen, and in a column or just behind the last.
pub record Inside (con : Console) : Type 0 where
  pub row_in : con.cursor_row < con.con_rows
  pub col_in : con.cursor_col ≤ con.con_cols
  pub cols_word : con.con_cols < 2 ^ 32
  pub rows_word : con.con_rows < 2 ^ 32
  pub some_cols : 0 < con.con_cols

-- The geometry of a console.
abbrev pub frame : Console → ℕ × ℕ × ℕ × ℕ
frame con = (con.cursor_row, con.cursor_col, con.con_rows, con.con_cols)

frame-Inside : (a b : Console) → frame b ≡ frame a → Inside a → Inside b
frame-Inside a b e i = record {
  row_in = omega (arith, ap (λ f. f.0) e, ap (λ f. f.2) e, i.row_in);
  col_in = omega (arith, ap (λ f. f.1) e, ap (λ f. f.3) e, i.col_in);
  cols_word = omega (arith, ap (λ f. f.3) e, i.cols_word);
  rows_word = omega (arith, ap (λ f. f.2) e, i.rows_word);
  some_cols = omega (arith, ap (λ f. f.3) e, i.some_cols);
}

frame-clear_cells : (n col row : ℕ) (con : Console) → frame (clear_cells n col row con) ≡ frame con
frame-clear_cells zero col row con = refl
frame-clear_cells (suc n) col row con =
    frame-clear_cells n (col + 1) row (draw_char_at con 32 col row)

frame-ansi_char : (con : Console) (c : ℕ) → frame (ansi_char con c) ≡ frame con
unfolding ansi_char
frame-ansi_char con c = ground arith

module _ {con : Console} (i : Inside con) where
  Inside-new_line : Inside (new_line con)
  unfolding new_line terminal_scroll
  Inside-new_line = elim (lt_or_le con.cursor_row (sub32 con.con_rows 1)) [
    | inl lt ↦
        let test : ltb con.cursor_row (sub32 con.con_rows 1) ≡ true = ground arith in
        rw test (record {
          row_in = omega (arith, i.row_in, i.rows_word);
          col_in = omega arith;
          cols_word = i.cols_word;
          rows_word = i.rows_word;
          some_cols = i.some_cols;
        })
    | inr le ↦
        let test : ltb con.cursor_row (sub32 con.con_rows 1) ≡ false = ground arith in
        let row = sub32 con.con_rows 1 in
        let con1 = record (draw (record con { cursor_col = 0 }) (Draw.scroll_up con.font_height)) {
          cursor_row = row;
          cursor_col = 0;
        } in
        let i1 : Inside con1 = record {
          row_in = omega (arith, i.row_in, i.rows_word);
          col_in = omega arith;
          cols_word = i.cols_word;
          rows_word = i.rows_word;
          some_cols = i.some_cols;
        } in
        rw test (
          frame-Inside con1 (clear_cells con.con_cols 0 row con1)
            (frame-clear_cells con.con_cols 0 row con1) i1)
  ]

  Inside-put_glyph : (c : ℕ) → con.cursor_col < con.con_cols → Inside (put_glyph con c)
  unfolding put_glyph
  Inside-put_glyph c room = record {
    row_in = i.row_in;
    col_in = omega (arith, i.cols_word);
    cols_word = i.cols_word;
    rows_word = i.rows_word;
    some_cols = i.some_cols;
  }

  Inside-backspace : Inside (backspace con)
  unfolding backspace
  Inside-backspace = record {
    row_in = ground (arith, i.row_in);
    col_in = ground (arith, i.col_in);
    cols_word = ground (arith, i.cols_word);
    rows_word = ground (arith, i.rows_word);
    some_cols = ground (arith, i.some_cols);
  }

frame-new_line :
    (con : Console) → ((new_line con).cursor_col ≡ 0) × ((new_line con).con_cols ≡ con.con_cols)
unfolding new_line terminal_scroll
frame-new_line con =
    let row = sub32 con.con_rows 1 in
    let con1 = record (draw (record con { cursor_col = 0 }) (Draw.scroll_up con.font_height)) {
      cursor_row = row;
      cursor_col = 0;
    } in
    let e = frame-clear_cells con.con_cols 0 row con1 in
    elim (Bool-cases (ltb con.cursor_row row)) [
      | inl test ↦ rw test (refl, refl)
      | inr test ↦ rw test (ap (λ f. f.1) e, ap (λ f. f.3) e)
    ]

-- Where `putchar` draws there is a column free.
wrapped :
    {con : Console}
    → Inside con
    → Inside (wrap_line con) × ((wrap_line con).cursor_col < (wrap_line con).con_cols)
wrapped {con} i = elim (Bool-cases (con.cursor_col == con.con_cols)) [
  | inl full ↦
      let (col, cols) = frame-new_line con in
      rw full (Inside-new_line i, omega (arith, col, cols, i.some_cols))
  | inr free ↦ rw free (i, ground (arith, i.col_in))
]

Inside-put_tab : (tab : ℕ) (con : Console) → Inside con → Inside (put_tab tab con)
unfolding put_tab
Inside-put_tab zero con i = i
Inside-put_tab (suc tab) con i = elim (lt_or_le con.cursor_col con.con_cols) [
  | inl room ↦
      let test : ltb con.cursor_col con.con_cols ≡ true = ground arith in
      rw test (Inside-put_tab tab (put_glyph con 32) (Inside-put_glyph i 32 room))
  | inr full ↦ let test : ltb con.cursor_col con.con_cols ≡ false = ground arith in rw test i
]

-- Whatever character is put, the cursor stays on the screen.
pub Inside-putchar : {con : Console} → Inside con → (c : ℕ) → Inside (putchar con c)
unfolding putchar
Inside-putchar {con} i c = elim (Bool-cases (ltb 0 con.ansi_state)) [
  | inl e ↦ rw e (frame-Inside con (ansi_char con c) (frame-ansi_char con c) i)
  | inr e ↦ rw e (elim (Bool-cases (c == 27)) [
    | inl esc ↦ rw esc (frame-Inside con (record con { ansi_state = 1 }) refl i)
    | inr n27 ↦ rw n27 (elim (Bool-cases (c == 10)) [
      | inl newline ↦ rw newline (Inside-new_line i)
      | inr n10 ↦ rw n10 (elim (Bool-cases (c == 13)) [
        | inl return ↦ rw return (record {
          row_in = i.row_in;
          col_in = omega arith;
          cols_word = i.cols_word;
          rows_word = i.rows_word;
          some_cols = i.some_cols;
        })
        | inr n13 ↦ rw n13 (elim (Bool-cases (c == 8)) [
          | inl back ↦ rw back (Inside-backspace i)
          | inr n8 ↦ rw n8 (elim (Bool-cases (c == 9)) [
            | inl tab ↦
                rw tab (
                  Inside-put_tab (4 - (wrap_line con).cursor_col % 4) (wrap_line con) (wrapped i).0)
            | inr n9 ↦ rw n9 (Inside-put_glyph (wrapped i).0 c (wrapped i).1)
          ])
        ])
      ])
    ])
  ])
]

-- Any text leaves the cursor on the screen if it is there before.
pub Inside-putstr : (cs : List ℕ) {con : Console} → Inside con → Inside (putstr con cs)
unfolding putstr
Inside-putstr [] i = i
Inside-putstr (c ∷ cs) i = Inside-putstr cs (Inside-putchar i c)
