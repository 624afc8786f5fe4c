-- ===== src/Tasks/Pids.antt =====
-- kernel/multitasking/pidTable.c: the table of all tasks by pid, and the pids that are free again.
pub mod Laws
use toast_os.Prelude.{
  ℕ, ◌+◌, Bool, true, false, Option, none, some, List, [], ◌∷◌, map, ◌==◌, if◌then◌else◌, u64,
}
use Prim.Native.String.{String}
use toast_os.TaskTable.{
  Table, task_table_init, task_table_set, task_table_get, task_table_clear, task_table_foreach,
}
use toast_os.Tasks.State.{
  TaskState, ready, running, blocked, waiting_for_lock, paused, sleeping, dead, Task, Kernel,
}
use toast_os.Tasks.Sched.{lock_schedule, unlock_schedule}

abbrev pub pid_table_initial_capacity : ℕ
pid_table_initial_capacity = 64

unfoldable pub pid_table_init : Kernel → (got_table got_slots : Bool) → Kernel
pid_table_init k got_table got_slots = record k {
  pid_table = task_table_init pid_table_initial_capacity got_table got_slots;
}

-- `true` stands for the result 0, `false` for -1.
unfoldable pub pid_table_insert : Kernel → ℕ → (got_memory : Bool) → Bool × Kernel
pid_table_insert k task got_memory =
    let (ok, irq, table) = task_table_set k.irq k.pid_table (k.tcb task).pid task got_memory in
    if task == 0 then (false, k) else (ok, record k { irq = irq; pid_table = table })

unfoldable pub pid_table_remove : Kernel → ℕ → Bool × Kernel
pid_table_remove k pid =
    let (ok, irq, table) = task_table_clear k.irq k.pid_table pid in
    (ok, record k { irq = irq; pid_table = table })

unfoldable pub pid_table_lookup : Kernel → ℕ → ℕ × Kernel
pid_table_lookup k pid =
    let (task, irq) = task_table_get k.irq k.pid_table pid in (task, record k { irq = irq })

-- The tasks that the callback is called with, in order. (The shim passes the value on without its
-- index.)
unfoldable pub pid_table_for_each : Kernel → List ℕ × Kernel
pid_table_for_each k =
    let (calls, irq) = task_table_foreach k.irq k.pid_table in
    (map (λ call. call.1) calls, record k { irq = irq })

unfoldable pub task_state_to_str : TaskState → String
task_state_to_str ready = "READY"
task_state_to_str running = "RUNNING"
task_state_to_str blocked = "BLOCKED"
task_state_to_str waiting_for_lock = "WAITING"
task_state_to_str paused = "PAUSED"
task_state_to_str sleeping = "SLEEPING"
task_state_to_str dead = "DEAD"

-- What `pid_alloc` takes: the latest free pid, with its node given back to the heap, or a new one.
unfoldable pub take_pid : Kernel → List (ℕ × ℕ) → ℕ × Kernel
take_pid k [] =
    let pid = k.next_greatest_pid in
    (pid, unlock_schedule (record k { next_greatest_pid = u64 (pid + 1) }))
take_pid k ((node, pid) ∷ rest) =
    let k1 = unlock_schedule (record k { free_pid_list = rest }) in
    (pid, record k1 { freed = node ∷ k1.freed })

unfoldable pub pid_alloc : Kernel → ℕ × Kernel
unfolding take_pid lock_schedule unlock_schedule
pid_alloc k = let k1 = lock_schedule k in take_pid k1 k1.free_pid_list

-- `node` is what `kmalloc` returns; without memory the pid is given up.
unfoldable pub pid_release : Kernel → (pid node : ℕ) → Kernel
unfolding lock_schedule unlock_schedule
pid_release k pid node =
    let k1 = lock_schedule k in
    let k2 = record k1 { free_pid_list = (node, pid) ∷ k1.free_pid_list } in
    if node == 0 then k else unlock_schedule k2
