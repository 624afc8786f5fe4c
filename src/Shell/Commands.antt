-- ===== src/Shell/Commands.antt =====
-- The commands of kernel/shell/tsh.c that only print: help, echo, lsh and exit, and the banner.
--
-- The words of the line, `argv`, are C strings; `argc` is their number.
use toast_os.Prelude.{
  ℕ, suc, zero, ◌+◌, ◌%◌, Bool, false, Option, List, [], ◌∷◌, ◌++◌, ◌==◌, if◌then◌else◌, ltb, ◌||◌,
  ◌&&◌, length, get_or, codes,
}
use toast_os.Console.{Console, console_set_color, putstr, con_white, con_black}
use toast_os.Shell.{Shell, text, entry, history_max}
use toast_os.Shell.Args.{Command, commands, same_text}
use toast_os.Stdio.Calls.{Call, put, format, number, string}

-- The loop of `help` that lists the commands, and the one that explains those with a name.
abbrev pub list_commands : List (List ℕ × Option Command × List ℕ) → List Call
list_commands [] = []
list_commands ((name, _, help_msg) ∷ rest) =
    let more = list_commands rest in
    if ltb 0 (length help_msg)
    then format (codes "  %s : %s \n") (string name ∷ string help_msg ∷ []) ∷ more
    else more

abbrev pub explain : (word : List ℕ) → List (List ℕ × Option Command × List ℕ) → List Call
explain word [] = []
explain word ((name, _, help_msg) ∷ rest) =
    let more = explain word rest in
    if same_text word name
    then format (codes "%s: %s\n") (string name ∷ string help_msg ∷ []) ∷ more
    else more

-- `found`
abbrev pub known : (word : List ℕ) → List (List ℕ × Option Command × List ℕ) → Bool
known word [] = false
known word ((name, _, _) ∷ rest) = same_text word name || known word rest

unfoldable pub cmd_help : (argv : List (List ℕ)) → List Call
cmd_help argv =
    let word = get_or argv 1 [] in
    if ltb (length argv) 2
    then put (codes "No command given - printing all commands\n\n")
      ∷ put (codes "            CMD LIST            \n")
      ∷ put (codes "--------------------------------\n")
      ∷ (list_commands commands ++ put (codes "--------------------------------\n") ∷ [])
    else explain word commands
      ++ (if known word commands
          then []
          else format (codes "help: unknown command '%s'\n") (string word ∷ []) ∷ [])

-- The loop of `cmd_echo` over the arguments that are left.
abbrev pub echo_words : List (List ℕ) → List ℕ
echo_words [] = []
echo_words (w ∷ []) = w
echo_words (w ∷ v ∷ ws) = w ++ (32 ∷ echo_words (v ∷ ws))

unfoldable pub cmd_echo : (argv : List (List ℕ)) → List ℕ
cmd_echo [] = 10 ∷ []
cmd_echo (name ∷ ws) = echo_words ws ++ 10 ∷ []

-- The entries from `i` on, as many as `count` says.
unfoldable pub list_entries : Shell → (count i : ℕ) → List Call
list_entries s zero i = []
list_entries s (suc n) i =
    format (codes "  %d : %s\n") (number i ∷ string (text (entry s i)) ∷ [])
    ∷ list_entries s n (i + 1)

unfoldable pub cmd_lsh : Shell → List Call
unfolding list_entries
cmd_lsh s =
    let n = s.history_count % history_max in
    let count = if (n == 0) && ltb 0 s.history_count then history_max else n in
    list_entries s count 0

-- The dash is three bytes of UTF-8. Then the processor halts.
unfoldable pub cmd_exit : List ℕ
cmd_exit = codes "Halting CPU " ++ (226 ∷ 128 ∷ 148 ∷ codes " adios amigo!\n")

unfoldable pub print_banner : Console → Console
unfolding console_set_color putstr
print_banner con =
    let line = codes "=================================================================\n" in
    let about = codes " ToastOS x86_64  |  tsh  |  est. 2026  Tomer Wiesel\n" in
    let here = codes " (eden was here :)\n" in
    let con1 = console_set_color con con_white con_black in
    let con2 = putstr (putstr (putstr (putstr con1 line) about) here) line in
    console_set_color con2 con_white con_black
