-- ===== src/Console.antt =====
-- The terminal, kernel/shell/console.c: the cursor, the colours and the ANSI escape sequences.
--
-- What the console has drawn is the list of its calls into kernel/font.c and kernel/framebuffer.c,
-- latest first, with the pixels of the arguments. `int`s that overflow are taken to wrap.
pub mod Cursor
pub mod Text
mod Tests
use toast_os.Prelude.{
  ℕ, zero, suc, ◌+◌, ◌-◌, ◌*◌, ◌/◌, ◌%◌, ◌^◌, Bool, true, false, List, [], ◌∷◌, if◌then◌else◌, ltb,
  leb, ◌==◌, get_or, u32, sub32, not, ◌&&◌, ◌||◌, bit_and,
}

abbrev pub con_black : ℕ
con_black = 0

abbrev pub con_white : ℕ
con_white = 16777215

-- `CON_BLACK, CON_RED, CON_GREEN, CON_YELLOW, CON_BLUE, CON_MAGENTA, CON_CYAN, CON_WHITE`
abbrev pub ansi_colors : List ℕ
ansi_colors = 0 ∷ 16733525 ∷ 43520 ∷ 16777045 ∷ 170 ∷ 16733695 ∷ 5636095 ∷ 16777215 ∷ []

-- `font_draw_char`, `fb_clear`, `fb_draw_rect`, and the loop that copies the picture up.
pub data Draw : Type 0 where
  char_at : (c px py fg bg : ℕ) → Draw
  clear : (colour : ℕ) → Draw
  rect : (px py w h colour : ℕ) → Draw
  scroll_up : (pixels : ℕ) → Draw

pub record Console : Type 0 where
  pub ansi_state : ℕ
  pub ansi_param : ℕ
  pub cursor_visible : Bool
  pub cursor_blink_counter : ℕ
  pub con_fg : ℕ
  pub con_bg : ℕ
  pub cursor_col : ℕ
  pub cursor_row : ℕ
  pub con_cols : ℕ
  pub con_rows : ℕ
  pub font_width : ℕ
  pub font_height : ℕ
  -- `fb->addr`
  pub fb_addr : ℕ
  pub drawn : List Draw

abbrev pub draw : Console → Draw → Console
draw con d = record con { drawn = d ∷ con.drawn }

abbrev pub draw_char_at : Console → (c col row : ℕ) → Console
draw_char_at con c col row =
    draw con
      (char_at c (u32 (col * con.font_width)) (u32 (row * con.font_height)) con.con_fg con.con_bg)

-- `n` columns from `col` on.
abbrev pub clear_cells : ℕ → ℕ → ℕ → Console → Console
clear_cells zero col row con = con
clear_cells (suc n) col row con = clear_cells n (col + 1) row (draw_char_at con 32 col row)

abbrev pub clear_row : Console → ℕ → Console
clear_row con row = clear_cells con.con_cols 0 row con

unfoldable pub terminal_scroll : Console → Console
terminal_scroll con =
    let row = sub32 con.con_rows 1 in
    clear_row (record (draw con (scroll_up con.font_height)) { cursor_row = row; cursor_col = 0 })
      row

unfoldable pub new_line : Console → Console
new_line con =
    if ltb con.cursor_row (sub32 con.con_rows 1)
    then record con { cursor_col = 0; cursor_row = u32 (con.cursor_row + 1) }
    else terminal_scroll (record con { cursor_col = 0 })

unfoldable pub clear_line : Console → (row : ℕ) → Console
clear_line con row =
    let con1 = clear_row con (u32 row) in
    if (con.fb_addr == 0) || (con.fb_addr / 2 ^ 48 == 0)
    then con
    else if leb con.con_rows row
    then con
    else if u32 row == con.cursor_row
    then record con1 { cursor_col = 0 }
    else con1

unfoldable pub clear_current_line : Console → Console
unfolding clear_line
clear_current_line con = clear_line con con.cursor_row

unfoldable pub terminal_clear : Console → Console
terminal_clear con = record (draw con (clear con.con_bg)) { cursor_col = 0; cursor_row = 0 }

unfoldable pub console_set_color : Console → (fg bg : ℕ) → Console
console_set_color con fg bg = record con { con_fg = fg; con_bg = bg }

-- The address of the framebuffer and its size in pixels.
unfoldable pub console_init : Console → (address width height : ℕ) → Console
unfolding terminal_clear
console_init con address width height = terminal_clear (record con {
  fb_addr = address;
  con_cols = width / con.font_width;
  con_rows = height / con.font_height;
  cursor_col = 0;
  cursor_row = 0;
})

-- What `m` does at the end of an escape sequence.
abbrev pub apply_param : Console → Console
apply_param con =
    let p = con.ansi_param in
    if p == 0
    then record con { con_fg = con_white; con_bg = con_black }
    else if leb 30 p && leb p 37
    then record con { con_fg = get_or ansi_colors (p - 30) 0 }
    else if leb 40 p && leb p 47
    then record con { con_bg = get_or ansi_colors (p - 40) 0 }
    else con

unfoldable pub ansi_char : Console → ℕ → Console
ansi_char con c =
    if (con.ansi_state == 1) && (c == 91)
    then record con { ansi_state = 2; ansi_param = 0 }
    else if (con.ansi_state == 2) && (leb 48 c && leb c 57)
    then record con { ansi_param = u32 (con.ansi_param * 10 + (c - 48)) }
    else if (con.ansi_state == 2) && (c == 109)
    then record (apply_param con) { ansi_state = 0 }
    else record con { ansi_state = 0 }

-- One cell at the cursor, and the cursor behind it.
unfoldable pub put_glyph : Console → ℕ → Console
put_glyph con c = record (draw_char_at con c con.cursor_col con.cursor_row) {
  cursor_col = u32 (con.cursor_col + 1);
}

abbrev pub wrap_line : Console → Console
wrap_line con = if con.cursor_col == con.con_cols then new_line con else con

-- `while (tab-- && cursor_col < con_cols)`
unfoldable pub put_tab : ℕ → Console → Console
put_tab zero con = con
put_tab (suc tab) con =
    let rest = put_tab tab (put_glyph con 32) in
    if ltb con.cursor_col con.con_cols then rest else con

unfoldable pub backspace : Console → Console
backspace con =
    let con1 =
      if con.cursor_visible then draw_char_at con 32 con.cursor_col con.cursor_row else con in
    let con2 =
      if (con1.cursor_col == 0) && not (con1.cursor_row == 0)
      then record con1 { cursor_row = con1.cursor_row - 1; cursor_col = con1.con_cols }
      else con1 in
    let con3 = record con2 { cursor_col = con2.cursor_col - 1 } in
    if ltb 0 con2.cursor_col then draw_char_at con3 32 con3.cursor_col con3.cursor_row else con2

unfoldable pub putchar : Console → ℕ → Console
putchar con c =
    let wrapped = wrap_line con in
    if ltb 0 con.ansi_state
    then ansi_char con c
    else if c == 27
    then record con { ansi_state = 1 }
    else if c == 10
    then new_line con
    else if c == 13
    then record con { cursor_col = 0 }
    else if c == 8
    then backspace con
    else if c == 9
    then put_tab (4 - wrapped.cursor_col % 4) wrapped
    else put_glyph wrapped c

unfoldable pub putstr : Console → List ℕ → Console
putstr con [] = con
putstr con (c ∷ cs) = putstr (putchar con c) cs

unfoldable pub console_tick : Console → Console
console_tick con =
    let count = u32 (con.cursor_blink_counter + 1) in
    let con1 = record con { cursor_blink_counter = 0 } in
    let px = u32 (con.cursor_col * con.font_width) in
    let py = u32 (con.cursor_row * con.font_height) in
    if ltb count 50
    then record con { cursor_blink_counter = count }
    else if con.cursor_visible
    then record (draw con1 (rect px py con.font_width con.font_height con.con_bg)) {
      cursor_visible = false;
    }
    else record (draw_char_at con1 95 con.cursor_col con.cursor_row) { cursor_visible = true }
