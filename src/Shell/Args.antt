-- ===== src/Shell/Args.antt =====
-- The commands of kernel/shell/tsh.c: the words of a line, the table, and a pid among the words.
use toast_os.Prelude.{
  ℕ, ◌+◌, ◌-◌, ◌*◌, Bool, true, false, Option, none, some, List, [], ◌∷◌, ◌==◌, if◌then◌else◌, ltb,
  not, ◌||◌, ◌&&◌, u64, drop, codes,
}
use toast_os.Shell.{text}

-- The loops of `parse_args` from the character at `line` on, inside a word or between two, with
-- `left` places in `argv`: the offsets that go into `argv`, and what becomes of the characters.
unfoldable pub split : (inside : Bool) → (left line : ℕ) → List ℕ → List ℕ × List ℕ
split inside left line [] = ([], [])
split false left line (c ∷ cs) =
    let (argv, rest) = split (not (c == 32)) (if c == 32 then left else left - 1) (line + 1) cs in
    if c == 32 then (argv, c ∷ rest) else if c == 0 then ([], c ∷ cs) else (line ∷ argv, c ∷ rest)
split true left line (c ∷ cs) =
    let (argv, rest) = split (not (c == 32)) left (line + 1) cs in
    if c == 0
    then ([], c ∷ cs)
    else if not (c == 32)
    then (argv, c ∷ rest)
    else if left == 0
    then ([], 0 ∷ cs)
    else (argv, 0 ∷ rest)

unfoldable pub parse_args : (line : List ℕ) → (max_args : ℕ) → List ℕ × List ℕ
unfolding split
parse_args line max_args = split false max_args 0 line

pub data Command : Type 0 where
  cmd_help : Command
  cmd_echo : Command
  cmd_lsh : Command
  cmd_meminfo : Command
  cmd_memmap : Command
  cmd_fetch : Command
  cmd_ps : Command
  cmd_kill : Command
  cmd_status : Command
  cmd_exit : Command

-- Name, function and `help_msg`; `exec` has NULL for its function.
abbrev pub commands : List (List ℕ × Option Command × List ℕ)
commands =
    (codes "help", some cmd_help, codes "Explains the operations of different commands")
    ∷ (codes "echo", some cmd_echo, codes "Prints the arguments following the command")
    ∷ (codes "lsh", some cmd_lsh, codes "Prints the (at most 8) most recent commands")
    ∷ (codes "meminfo", some cmd_meminfo, codes "Prints a cheat sheet of the Os' mmu")
    ∷ (codes "memmap", some cmd_memmap, codes "Dumps the Limine physical memory map")
    ∷ (
      codes "fetch",
      some cmd_fetch,
      codes "it ain't a real OS without fetch(I love systen diagnostics)",
    )
    ∷ (codes "ps", some cmd_ps, codes "Lists every task's pid, name, state, and CPU time")
    ∷ (codes "kill", some cmd_kill, codes "Kills a task by pid - usage: kill <pid>")
    ∷ (
      codes "status",
      some cmd_status,
      codes "Shows detailed status for one task - usage: status <pid>",
    )
    ∷ (codes "exec", none, codes "executes a binary in the file system that is passed in arg1")
    ∷ (codes "exit", some cmd_exit, codes "Gracefully halts the CPU")
    ∷ []

-- `strcmp(a, b) == 0`
abbrev pub same_text : List ℕ → List ℕ → Bool
same_text [] [] = true
same_text [] (b ∷ bs) = false
same_text (a ∷ xs) [] = false
same_text (a ∷ xs) (b ∷ bs) = (a == b) && same_text xs bs

unfoldable pub find_command :
    List ℕ → List (List ℕ × Option Command × List ℕ) → Option (Option Command)
find_command name [] = none
find_command name ((n, command, _) ∷ rest) =
    let later = find_command name rest in if same_text name n then some command else later

-- What `shell_exec` comes to: nothing for a line without words, a call of a command with its
-- `argv`, a call through NULL, or the complaint about an unknown command.
pub data Exec : Type 0 where
  nothing : Exec
  call : Command → (argv : List ℕ) → (line : List ℕ) → Exec
  call_null : Exec
  unknown : (name : List ℕ) → Exec

abbrev pub run_command : Option (Option Command) → (argv line name : List ℕ) → Exec
run_command none argv line name = unknown name
run_command (some none) argv line name = call_null
run_command (some (some c)) argv line name = call c argv line

abbrev pub exec_words : List ℕ × List ℕ → Exec
exec_words ([], line) = nothing
exec_words (word ∷ argv, line) =
    let name = text (drop word line) in
    run_command (find_command name commands) (word ∷ argv) line name

unfoldable pub shell_exec : (line : List ℕ) → Exec
unfolding parse_args find_command
shell_exec line = exec_words (parse_args line 16)

-- The digits from `p` on, onto `value`.
unfoldable pub pid_digits : List ℕ → (value : ℕ) → Option ℕ
pid_digits [] value = some value
pid_digits (c ∷ cs) value =
    let rest = pid_digits cs (u64 (value * 10 + (c - 48))) in
    if ltb c 48 || ltb 57 c then none else rest

-- `none` stands for the result -1.
unfoldable pub parse_pid_arg : Option (List ℕ) → Option ℕ
unfolding pid_digits
parse_pid_arg none = none
parse_pid_arg (some []) = none
parse_pid_arg (some (c ∷ cs)) = pid_digits (c ∷ cs) 0
