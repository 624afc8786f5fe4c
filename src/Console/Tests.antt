-- ===== src/Console/Tests.antt =====
-- The theorems on kernel/shell/console.c at a screen of two rows and three columns.
use toast_os.Prelude.{false, [], ◌∷◌, arith}
use toast_os.Console.{Console, con_white, con_black, putstr}
use toast_os.Console.Cursor.{Inside, Inside-putstr}

abbrev small_screen : Console
small_screen = record {
  ansi_state = 0;
  ansi_param = 0;
  cursor_visible = false;
  cursor_blink_counter = 0;
  con_fg = con_white;
  con_bg = con_black;
  cursor_col = 1;
  cursor_row = 1;
  con_cols = 3;
  con_rows = 2;
  font_width = 8;
  font_height = 16;
  fb_addr = 18446603336221196288;
  drawn = [];
}

small_screen-Inside : Inside small_screen
small_screen-Inside = record {
  row_in = omega arith;
  col_in = omega arith;
  cols_word = omega arith;
  rows_word = omega arith;
  some_cols = omega arith;
}

Inside-putstr_example : Inside (putstr small_screen (97 ∷ 9 ∷ 98 ∷ 10 ∷ 8 ∷ []))
Inside-putstr_example = Inside-putstr (97 ∷ 9 ∷ 98 ∷ 10 ∷ 8 ∷ []) small_screen-Inside
