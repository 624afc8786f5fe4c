-- ===== src/Shell/Session.antt =====
-- A session with the shell, kernel/shell/tsh.c: what a line does to the machine, and the loop of
-- init_shell.
use toast_os.Prelude.{
  ℕ, false, Option, none, some, List, [], ◌∷◌, ◌++◌, codes, ◌==◌, ◌≡◌, refl, ◌∙◌, if◌then◌else◌,
  ◌>>=◌, All, take, get_or, drop, ap, sym, ◌-◌, arith,
}
use toast_os.Console.{putstr}
use toast_os.Pmm.Init.{Entry}
use toast_os.Heap.{KHeap}
use toast_os.Tasks.State.{Kernel}
use toast_os.Shell.{Shell, text, print_prompt, readline, update_history}
use toast_os.Shell.Args.{
  Command, Exec, nothing, call, call_null, unknown, shell_exec, commands, find_command, run_command,
  exec_words, parse_args,
}
use toast_os.Shell.Words.{words, strings, parse_args-words}
use toast_os.Stdio.Calls.{Call, put, format, prints, string}
use toast_os.Shell.Commands.{cmd_help, cmd_echo, cmd_lsh, cmd_exit, print_banner}
use toast_os.Shell.TaskCommands.{shell_cmd_ps, cmd_kill, cmd_status}
use toast_os.Shell.Info.{cmd_meminfo, cmd_memmap, cmd_fetch}

-- The parts of the kernel that the commands read and change.
pub record Machine : Type 0 where
  pub shell : Shell
  pub kernel : Kernel
  pub kheap : KHeap

-- What the commands read and never change: the address of the bitmap, the boot loader's memory map,
-- the name of the processor, and the names of the tasks.
pub record Facts : Type 0 where
  pub bitmap : ℕ
  pub memmap : Option (List Entry)
  pub cpu_name : List ℕ
  pub names : ℕ → List ℕ

-- The shell goes on with these calls made, it halts the processor, or it calls through NULL.
pub data Outcome : Type 0 where
  goes_on : List Call → Machine → Outcome
  halts : List Call → Outcome
  faults : Outcome

abbrev pub with_kernel : Machine → List Call × Kernel → Outcome
with_kernel m (calls, k) = goes_on calls (record m { kernel = k })

module _ (facts : Facts) (idle : Kernel → Kernel) (bound : ℕ) where
  -- The commands' functions.
  pub call_command : Machine → Command → (argv : List (List ℕ)) → Outcome
  call_command m Command.cmd_help argv = goes_on (cmd_help argv) m
  call_command m Command.cmd_echo argv = goes_on (put (cmd_echo argv) ∷ []) m
  call_command m Command.cmd_lsh argv = goes_on (cmd_lsh m.shell) m
  call_command m Command.cmd_meminfo argv = goes_on (cmd_meminfo m.kheap facts.bitmap) m
  call_command m Command.cmd_memmap argv = goes_on (cmd_memmap facts.memmap) m
  call_command m Command.cmd_fetch argv =
      goes_on (cmd_fetch m.kernel.timer m.kheap.vmm.pmm facts.cpu_name) m
  call_command m Command.cmd_ps argv = with_kernel m (shell_cmd_ps facts.names m.kernel)
  call_command m Command.cmd_kill argv = with_kernel m (cmd_kill idle bound m.kernel argv)
  call_command m Command.cmd_status argv = with_kernel m (cmd_status facts.names m.kernel argv)
  call_command m Command.cmd_exit argv = halts (put cmd_exit ∷ [])

  -- What `shell_exec` comes to on the machine.
  abbrev pub run_exec : Machine → Exec → Outcome
  run_exec m nothing = goes_on [] m
  run_exec m (call c argv line) = call_command m c (strings 0 argv line)
  run_exec m call_null = faults
  run_exec m (unknown name) =
      goes_on (format (codes "tsh: unknown command: %s\n") (string name ∷ []) ∷ []) m

  -- The characters that are printed appear on the console.
  pub show : List Call → Machine → Option Machine
  show calls m = do
    out ← prints calls
    some (record m { shell = record m.shell { con = putstr m.shell.con out } })

  pub shown : Outcome → Option Machine
  unfolding show
  shown (goes_on calls m) = show calls m
  shown (halts calls) = none
  shown faults = none

  -- `parse_args` ends the words in `buf` itself.
  abbrev pub cut_words : Shell → Shell
  cut_words s = record s { buf = (parse_args s.buf 16).1 }

  -- A round of the loop of `init_shell` on the keys that come, and those that are left. `none` also
  -- stands for a halt and a fault.
  unfoldable pub shell_round : Machine → (keys : List ℕ) → Option (Machine × List ℕ)
  unfolding shown call_command
  shell_round m keys = do
    (s, left) ← readline keys (record m.shell { con = print_prompt m.shell.con })
    m' ←
        (if get_or s.buf 0 0 == 0
          then some (record m { shell = s })
          else shown (
              run_exec (record m { shell = cut_words (update_history s s.buf) })
                (shell_exec s.buf)))
    some (m', left)

  unfoldable pub init_shell : Machine → Option Machine
  unfolding show
  init_shell m =
      show (cmd_fetch m.kernel.timer m.kheap.vmm.pmm facts.cpu_name)
        (record m { shell = record m.shell { con = print_banner m.shell.con } })

  -- The command that a name stands for, with the words of the line for its arguments.
  abbrev pub run_named :
      Machine → Option (Option Command) → (name : List ℕ) → (args : List (List ℕ)) → Outcome
  run_named m none name args =
      goes_on (format (codes "tsh: unknown command: %s\n") (string name ∷ []) ∷ []) m
  run_named m (some none) name args = faults
  run_named m (some (some c)) name args = call_command m c (name ∷ args)

  abbrev pub run_strings : Machine → List (List ℕ) → Outcome
  run_strings m [] = goes_on [] m
  run_strings m (name ∷ args) = run_named m (find_command name commands) name args

  run_named-run_command :
      (m : Machine) (c : Option (Option Command)) (argv line name : List ℕ) (args : List (List ℕ))
      → strings 0 argv line ≡ name ∷ args
      → run_exec m (run_command c argv line name) ≡ run_named m c name args
  run_named-run_command m none argv line name args e = refl
  run_named-run_command m (some none) argv line name args e = refl
  run_named-run_command m (some (some c)) argv line name args e = rw e refl

  run_strings-exec_words :
      (m : Machine) (argv line : List ℕ)
      → run_exec m (exec_words (argv, line)) ≡ run_strings m (strings 0 argv line)
  run_strings-exec_words m [] line = refl
  run_strings-exec_words m (word ∷ argv) line =
      let name = text (drop word line) in
      let all : strings 0 (word ∷ argv) line ≡ name ∷ strings 0 argv line =
        ap (λ w. text (drop w line) ∷ strings 0 argv line) {x = word - 0} {y = word}
          (omega arith) in
      run_named-run_command m (find_command name commands) (word ∷ argv) line name
        (strings 0 argv line) all
      ∙ sym (ap (run_strings m) all)

  -- A line without a NUL, followed by one, does what its words say: nothing if it has none, and
  -- otherwise what the command that the first word names does with the first 16 words; a name that
  -- is not in the table is complained about, and exec is a call through NULL.
  pub shell_exec-words :
      (m : Machine) (s tail : List ℕ)
      → All (λ c. (c == 0) ≡ false) s
      → run_exec m (shell_exec (s ++ 0 ∷ tail)) ≡ run_strings m (take 16 (words [] s))
  unfolding shell_exec
  shell_exec-words m s tail some' =
      let (argv, line) = parse_args (s ++ 0 ∷ tail) 16 in
      run_strings-exec_words m argv line
      ∙ ap (run_strings m) (parse_args-words s tail 16 some' (omega arith))
