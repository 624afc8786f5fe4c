-- ===== src/Shell/TaskCommands.antt =====
-- The commands on tasks: kernel/shell/task_shell.c, and kill and status of kernel/shell/tsh.c.
--
-- `names` gives the text that a task's name pointer leads to.
use toast_os.Prelude.{
  ℕ, Bool, true, false, none, some, List, [], ◌∷◌, map, ◌==◌, if◌then◌else◌, ltb, length, get_or,
  codes,
}
use toast_os.Tasks.State.{Task, Kernel}
use toast_os.Tasks.Pids.{pid_table_lookup, pid_table_for_each, task_state_to_str}
use toast_os.Tasks.Life.{kill_task_by_pid}
use toast_os.Shell.Args.{parse_pid_arg}
use toast_os.Stdio.Calls.{Call, format, number, string}

module _ (names : ℕ → List ℕ) where
  pub print_task_row : Task → Call
  unfolding task_state_to_str
  print_task_row t = format (codes "%lu\t%s\t%s\t%lu\n") (
      number t.pid
      ∷ string (names t.name)
      ∷ string (codes (task_state_to_str t.state))
      ∷ number t.time_elapsed
      ∷ [])

  unfoldable pub shell_cmd_ps : Kernel → List Call × Kernel
  unfolding print_task_row
  shell_cmd_ps k =
      let (tasks, k1) = pid_table_for_each k in
      (
        format (codes "PID\tNAME\tSTATE\tTIME_ELAPSED(ns)\n") []
            ∷ map (λ task. print_task_row (k.tcb task)) tasks,
        k1,
      )

  unfoldable pub shell_cmd_status : Kernel → (pid : ℕ) → List Call × Kernel
  unfolding task_state_to_str
  shell_cmd_status k pid =
      let (task, k1) = pid_table_lookup k pid in
      let t = k1.tcb task in
      if task == 0 then (format (codes "no such task: %lu\n") (number pid ∷ []) ∷ [], k1) else (
        format (codes "pid=%lu name=%s state=%s time_elapsed=%lu ns\n") (
              number t.pid
              ∷ string (names t.name)
              ∷ string (codes (task_state_to_str t.state))
              ∷ number t.time_elapsed
              ∷ [])
            ∷ [],
        k1,
      )

  -- What a command does with its pid argument, and what it prints without one.
  unfoldable pub cmd_status : Kernel → (argv : List (List ℕ)) → List Call × Kernel
  unfolding shell_cmd_status
  cmd_status k argv =
      let word = get_or argv 1 [] in
      if ltb (length argv) 2
      then (format (codes "usage: status <pid>\n") [] ∷ [], k)
      else elim (parse_pid_arg (some word)) [
        | none ↦ (format (codes "status: '%s' is not a valid pid\n") (string word ∷ []) ∷ [], k)
        | some pid ↦ shell_cmd_status k pid
      ]

-- The answer says whether the task was killed; it is printed once the kernel has moved on.
abbrev pub kill_message : Bool → (pid : ℕ) → Call
kill_message true pid = format (codes "task %lu terminated\n") (number pid ∷ [])
kill_message false pid =
    format (codes "kill failed: no such task, or task not killable (pid %lu)\n") (number pid ∷ [])

-- `idle` says what comes while no task can run, `bound` how far a walk over a queue may go.
module _ (idle : Kernel → Kernel) where
  unfoldable pub shell_cmd_kill : ℕ → Kernel → (pid : ℕ) → List Call × Kernel
  shell_cmd_kill bound k pid =
      let (done, k1) = kill_task_by_pid idle bound k pid in (kill_message done pid ∷ [], k1)

  unfoldable pub cmd_kill : ℕ → Kernel → (argv : List (List ℕ)) → List Call × Kernel
  unfolding shell_cmd_kill
  cmd_kill bound k argv =
      let word = get_or argv 1 [] in
      if ltb (length argv) 2
      then (format (codes "usage: kill <pid>\n") [] ∷ [], k)
      else elim (parse_pid_arg (some word)) [
        | none ↦ (format (codes "kill: '%s' is not a valid pid\n") (string word ∷ []) ∷ [], k)
        | some pid ↦ shell_cmd_kill bound k pid
      ]
