-- ===== src/Shell.antt =====
-- The shell's line editor and its history, kernel/shell/tsh.c.
--
-- `buf` and the eight entries of `cmd_history` are the bytes of the arrays; a write past an array's
-- end changes nothing in the model. The characters that `kb_getchar` returns are a list, and a line
-- that they do not finish is `none`: the shell waits for more.
pub mod Args
pub mod Line
pub mod Pids
pub mod Read
pub mod Words
pub mod Commands
pub mod TaskCommands
pub mod Info
pub mod Reports
pub mod Killing
pub mod Session
mod Tests
use toast_os.Prelude.{
  ℕ, zero, suc, ◌+◌, ◌-◌, ◌%◌, Bool, true, false, Option, none, some, List, [], ◌∷◌, ◌==◌,
  if◌then◌else◌, ltb, not, ◌||◌, ◌&&◌, get_or, set, length, replicate,
}
use toast_os.Console.{
  Console, con_black, con_white, clear_current_line, terminal_clear, console_set_color, putchar,
  putstr,
}

abbrev pub history_max : ℕ
history_max = 8

abbrev pub kb_buf_size : ℕ
kb_buf_size = 256

abbrev pub con_light_green : ℕ
con_light_green = 0x0055FF55

pub record Shell : Type 0 where
  pub con : Console
  pub history_count : ℕ
  pub prev_command_index : ℕ
  pub cmd_history : List (List ℕ)
  pub buf : List ℕ
  pub buf_index : ℕ

-- The characters of a C string, without the NUL.
abbrev pub text : List ℕ → List ℕ
text [] = []
text (c ∷ cs) = if c == 0 then [] else c ∷ text cs

-- `strcpy(dst, src)` between two arrays.
abbrev pub copy_string : (src dst : List ℕ) → List ℕ
copy_string src [] = []
copy_string [] (d ∷ ds) = d ∷ ds
copy_string (c ∷ cs) (d ∷ ds) = c ∷ (if c == 0 then ds else copy_string cs ds)

abbrev pub entry : Shell → ℕ → List ℕ
entry s i = get_or s.cmd_history i []

-- "tsh" in green and "> " in white.
unfoldable pub print_prompt : Console → Console
unfolding console_set_color putstr
print_prompt con =
    let green = console_set_color con con_light_green con_black in
    let name = putstr green (116 ∷ 115 ∷ 104 ∷ []) in
    let white = console_set_color name con_white con_black in
    console_set_color (putstr white (62 ∷ 32 ∷ [])) con_white con_black

-- The line empty on the screen, and `buf` cleared.
unfoldable pub restart_line : Shell → Shell
unfolding print_prompt clear_current_line
restart_line s = record s {
  con = print_prompt (clear_current_line s.con);
  buf = replicate kb_buf_size 0;
}

unfoldable pub update_history : Shell → (line : List ℕ) → Shell
update_history s line =
    let i = s.history_count % history_max in
    let count = s.history_count + 1 in
    if get_or line 0 0 == 0 then s else record s {
      cmd_history = set s.cmd_history i (copy_string line (entry s i));
      prev_command_index = count % history_max;
      history_count = if count % history_max == 0 then 0 else count;
    }

unfoldable pub get_prev_cmd : Shell → Shell
unfolding restart_line
get_prev_cmd s =
    let prev_idx = (s.prev_command_index + history_max - 1) % history_max in
    let i =
      if not (length (text (entry s prev_idx)) == 0) then prev_idx else s.prev_command_index in
    let s1 = restart_line s in
    let line = copy_string (entry s i) s1.buf in
    record s1 {
      con = putstr s1.con (text line);
      prev_command_index = i;
      buf = line;
      buf_index = length (text line);
    }

unfoldable pub get_next_cmd : Shell → Shell
unfolding restart_line
get_next_cmd s =
    let next_idx = (s.prev_command_index + 1) % history_max in
    let s1 = restart_line s in
    let line = copy_string (entry s next_idx) s1.buf in
    if not (length (text (entry s next_idx)) == 0)
    then record s1 {
      con = putstr s1.con (text line);
      prev_command_index = next_idx;
      buf = line;
      buf_index = length (text line);
    }
    else record s1 { buf_index = length (text s1.buf) }

-- A character at the end of the line, if there is room.
unfoldable pub type_char : ℕ → Shell → Shell
type_char c s =
    if ltb s.buf_index (kb_buf_size - 1)
    then record s {
      con = putchar s.con c;
      buf = set s.buf s.buf_index c;
      buf_index = s.buf_index + 1;
    }
    else s

-- `\b`
unfoldable pub rub_out : Shell → Shell
rub_out s =
    if ltb 0 s.buf_index
    then record s {
      con = putchar s.con 8;
      buf = set s.buf (s.buf_index - 1) 0;
      buf_index = s.buf_index - 1;
    }
    else s

-- How much of an escape sequence `\x1b[A` has been read.
pub data Mode : Type 0 where
  plain : Mode
  escape : Mode
  bracket : Mode

-- What `readline` does with a character that does not end the line.
unfoldable pub key : Mode → ℕ → Shell → Mode × Shell
unfolding get_prev_cmd get_next_cmd type_char rub_out
key plain c s =
    if c == 9
    then (plain, type_char 32 (type_char 32 (type_char 32 (type_char 32 s))))
    else if c == 8
    then (plain, rub_out s)
    else if c == 27
    then (escape, s)
    else (plain, type_char c s)
key escape c s = (if c == 91 then bracket else plain, s)
key bracket c s = (plain, if c == 65 then get_prev_cmd s else if c == 66 then get_next_cmd s else s)

abbrev pub ends_line : Mode → ℕ → Bool
ends_line plain c = (c == 10) || (c == 13)
ends_line escape c = false
ends_line bracket c = false

-- The loop of `readline`; the characters that follow the line are left.
unfoldable pub read_loop : List ℕ → Mode → Shell → Option (Shell × List ℕ)
unfolding key
read_loop [] mode s = none
read_loop (c ∷ cs) mode s =
    let (mode', s') = key mode c s in
    let rest = read_loop cs mode' s' in
    let done = record s { con = putchar s.con 10; buf = set s.buf s.buf_index 0 } in
    if ends_line mode c then some (done, cs) else rest

unfoldable pub readline : List ℕ → Shell → Option (Shell × List ℕ)
unfolding read_loop
readline keys s = read_loop keys plain (record s { buf = replicate kb_buf_size 0; buf_index = 0 })

unfoldable pub shell_clear : Shell → Shell
unfolding print_prompt
shell_clear s = record s {
  con = print_prompt (terminal_clear s.con);
  buf = replicate kb_buf_size 0;
}
