-- ===== src/Tasks/Life.antt =====
-- The life of a task, kernel/multitasking/task.c: creation, termination, killing and reaping. What
-- the heap and the VMM answer are arguments.
pub mod Create
pub mod Exit
pub mod Kill
use toast_os.Prelude.{
  ℕ, zero, suc, ◌+◌, ◌-◌, ◌^◌, Bool, true, false, Option, none, some, List, [], ◌∷◌, ◌==◌,
  if◌then◌else◌, u64, not, ◌&&◌, ◌||◌, bit_and, ltb, leb,
}
use toast_os.Tasks.State.{
  TaskState, ready, running, blocked, waiting_for_lock, paused, sleeping, dead, Task, Kernel,
  with_task, set_state, state_of, zero_task, put_next,
}
use toast_os.Tasks.Queues.{ready_push, ready_remove, sleep_remove, sem_remove}
use toast_os.Tasks.Sched.{
  lock_schedule, unlock_schedule, lock_stuff, unlock_stuff, block_task, unblock_task, yield_cpu,
}
use toast_os.Tasks.Pids.{
  pid_table_insert, pid_table_remove, pid_table_lookup, pid_alloc, pid_release,
}

abbrev pub new_task_kstack_size : ℕ
new_task_kstack_size = 16384

-- The addresses of the code that a new stack returns to and starts.
pub record Entry : Type 0 where
  pub name : ℕ
  pub fn : ℕ
  pub arg0 : ℕ
  pub arg1 : ℕ
  pub ctx : ℕ
  pub ctx_pml_phys : ℕ
  pub is_user : Bool

-- `(stack + SIZE) & ~0xF`
abbrev pub stack_top : ℕ → ℕ
stack_top stack = bit_and (u64 (stack + new_task_kstack_size)) (2 ^ 64 - 16)

-- The words that are pushed on the new stack, the last pushed first: `r15 r14 r13 r12 rbp rbx`, and
-- the address of `task_first_run`, to which `context_switch` returns.
unfoldable pub initial_frame : (task_first_run : ℕ) → Entry → List ℕ
initial_frame task_first_run e = 0 ∷ e.arg1 ∷ e.arg0 ∷ e.fn ∷ 0 ∷ 0 ∷ task_first_run ∷ []

abbrev pub new_tcb : Entry → (stack pid : ℕ) → Task
new_tcb e stack pid = record zero_task {
  name = e.name;
  pid = pid;
  rsp = stack_top stack - 56;
  rsp0 = stack_top stack;
  cr3 = e.ctx_pml_phys;
  state = ready;
  kstack_base = stack;
  vmm_ctx = e.ctx;
  is_user = e.is_user;
}

-- What `kmalloc` returns for the TCB and the stack, whether it lets the pid table grow, and the node
-- that it returns for a pid that is given back.
pub record Memory : Type 0 where
  pub task : ℕ
  pub stack : ℕ
  pub got_table : Bool
  pub pid_node : ℕ

-- The new task, 0 on failure.
unfoldable pub task_create_internal : Kernel → Entry → Memory → ℕ × Kernel
task_create_internal k e m =
    let (pid, k1) = pid_alloc k in
    let k2 = with_task k1 m.task (λ _. new_tcb e m.stack pid) in
    let (ok, k3) = pid_table_insert k2 m.task m.got_table in
    let undone = pid_release k3 pid m.pid_node in
    if m.task == 0
    then (0, k)
    else if m.stack == 0
    then (0, record k { freed = m.task ∷ k.freed })
    else if not ok
    then (0, record undone { freed = m.task ∷ m.stack ∷ undone.freed })
    else (m.task, unlock_schedule (ready_push (lock_schedule k3) m.task))

abbrev pub is_paused : TaskState → Bool
is_paused paused = true
is_paused _ = false

unfoldable pub wake_reaper : Kernel → Kernel
wake_reaper k =
    if not (k.terminator_task == 0) && is_paused (state_of k k.terminator_task)
    then unblock_task k k.terminator_task
    else k

-- The `switch` on the state of the victim: it is taken off the queue that it is on.
unfoldable pub unqueue : ℕ → Kernel → ℕ → TaskState → Kernel
unqueue bound k task ready = ready_remove bound k task
unqueue bound k task sleeping = sleep_remove bound k task
unqueue bound k task waiting_for_lock =
    let s = (k.tcb task).waiting_for in if not (s == 0) then sem_remove bound k s task else k
unqueue bound k task running = k
unqueue bound k task blocked = k
unqueue bound k task paused = k
unqueue bound k task dead = k

abbrev pub is_dead : TaskState → Bool
is_dead dead = true
is_dead _ = false

unfoldable pub mark_dead : Kernel → ℕ → Kernel
mark_dead k task =
    record (with_task k task (λ t. record t { state = dead; next = k.terminated_list })) {
      terminated_list = task;
    }

module _ (idle : Kernel → Kernel) where
  unfoldable pub terminate_task : Kernel → Kernel
  terminate_task k =
      let k1 = lock_schedule (lock_stuff k) in
      let task = k1.current_task in
      let k2 =
        unlock_schedule
          (record k1 { tcb = put_next k1.tcb task k1.terminated_list; terminated_list = task }) in
      unlock_stuff idle (wake_reaper (block_task idle k2 dead))

  -- `true` stands for the result 0, `false` for -1.
  unfoldable pub kill_task_by_pid : ℕ → Kernel → ℕ → Bool × Kernel
  kill_task_by_pid bound k pid =
      let (task, k1) = pid_table_lookup k pid in
      let elder = (task == k1.t0) || ((task == k1.terminator_task) || (task == k1.shell_task)) in
      let k2 = lock_stuff k1 in
      let k3 = mark_dead (unqueue bound k2 task (state_of k2 task)) task in
      if task == 0
      then (false, k1)
      else if elder
      then (false, k1)
      else if task == k1.current_task
      then (true, terminate_task k1)
      else if is_dead (state_of k2 task)
      then (false, unlock_stuff idle k2)
      else (true, unlock_stuff idle (wake_reaper k3))

-- `node` is what `kmalloc` returns for the released pid.
unfoldable pub reap_task : Kernel → (task node : ℕ) → Kernel
reap_task k task node =
    let t = k.tcb task in
    let (_, k1) = pid_table_remove k t.pid in
    let k2 =
      if t.is_user && not (t.vmm_ctx == 0)
      then record k1 { destroyed = t.vmm_ctx ∷ k1.destroyed }
      else k1 in
    let k3 =
      if not (t.kstack_base == 0) then record k2 { freed = t.kstack_base ∷ k2.freed } else k2 in
    if task == 0 then k else pid_release (record k3 { freed = task ∷ k3.freed }) t.pid node

-- The inner loop of `reap_all_tasks`; `nodes` are what `kmalloc` returns for the pids.
unfoldable pub reap_list : List ℕ → Kernel → Kernel
reap_list [] k = k
reap_list (node ∷ nodes) k =
    let task = k.terminated_list in
    let rest =
      reap_list nodes (reap_task (record k { terminated_list = (k.tcb task).next }) task node) in
    if task == 0 then k else rest

-- One round of the reaper, up to the point where it is parked.
unfoldable pub reap_all_tasks : (Kernel → Kernel) → List ℕ → Kernel → Kernel
reap_all_tasks idle nodes k =
    unlock_stuff idle (block_task idle (reap_list nodes (lock_stuff k)) paused)
