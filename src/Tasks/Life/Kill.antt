-- ===== src/Tasks/Life/Kill.antt =====
-- `kill_task_by_pid` of kernel/multitasking/task.c: whom it spares and whom it kills.
use toast_os.Prelude.{
  ℕ, ◌≡◌, ◌≢◌, refl, ◌∙◌, ap, Bool, true, false, some, List, [], ◌∷◌, ◌==◌, ◌||◌, ◌&&◌, not,
  if◌then◌else◌, arith, Bool-cases, inl, inr, length, ◌≤◌,
}
use toast_os.TaskTable.{Table, task_table_get}
use toast_os.TaskTable.Laws
use toast_os.Tasks.State.{Kernel, Task, ready, dead, state_of, next_of}
use toast_os.Tasks.Links.Chain.{mem, Holds, Chain, Chain-frame, state-spared}
use toast_os.Tasks.Links.Laws.{delete, remove-delete, not-mem-null}
use toast_os.Tasks.Queues.{ready_links, ready_remove}
use toast_os.Tasks.Sched.{lock_stuff}
use toast_os.Tasks.Pids.{pid_table_lookup}
use toast_os.Tasks.Life.{kill_task_by_pid, unqueue, mark_dead, is_dead, is_paused, wake_reaper}
use toast_os.Tasks.Sync.Laws.{Calm, unlock_stuff-lock_stuff}

-- The tasks that may not be killed: the boot task, the reaper, the shell.
abbrev pub is_elder : Kernel → ℕ → Bool
is_elder k task = (task == k.t0) || ((task == k.terminator_task) || (task == k.shell_task))

module _ (idle : Kernel → Kernel) (bound : ℕ) {k : Kernel} {t : Table} (calm : Calm k)
    (v : Laws.IsValid t) (table : k.pid_table ≡ some t) (pid : ℕ) where
  lookup_lem : pid_table_lookup k pid ≡ (Laws.at t pid, k)
  unfolding pid_table_lookup
  lookup_lem =
      ap (λ r. (r.0, record k { irq = r.1 }))
        (ap (λ z. task_table_get k.irq z pid) table ∙ Laws.task_table_get_lem calm.irq v pid)

  -- With no switch due, a pid that no task has, and the pid of the boot task, the reaper or the
  -- shell, are refused, and nothing changes.
  pub kill_task_by_pid-spared :
      ((Laws.at t pid == 0) || is_elder k (Laws.at t pid)) ≡ true
      → kill_task_by_pid idle bound k pid ≡ (false, k)
  unfolding kill_task_by_pid
  kill_task_by_pid-spared spared = rw lookup_lem (ground arith)

  -- Nor can a task die twice.
  pub kill_task_by_pid-dead :
      is_dead (state_of k (Laws.at t pid)) ≡ true
      → (Laws.at t pid == k.current_task) ≡ false
      → kill_task_by_pid idle bound k pid ≡ (false, k)
  unfolding kill_task_by_pid lock_stuff
  kill_task_by_pid-dead gone other =
      let back = unlock_stuff-lock_stuff idle (lock_stuff k) calm refl refl calm.none_due in
      rw (lookup_lem, other, gone) (rw back (ground arith))

-- From `k` to `k'` the task `task` went from the ready queue to the front of the dead.
pub record Killed (k : Kernel) (task : ℕ) (rs : List ℕ) (k' : Kernel) : Type 0 where
  pub ready_queue : Holds (ready_links k') (delete task rs)
  pub states : (a : ℕ) → state_of k' a ≡ (if a == task then dead else state_of k a)
  pub first_dead : k'.terminated_list ≡ task
  pub next_dead : next_of k' task ≡ k.terminated_list
  pub running_on : k'.current_task ≡ k.current_task
  pub irq : k'.irq ≡ k.irq

pub wake_reaper-busy :
    (k : Kernel) → is_paused (state_of k k.terminator_task) ≡ false → wake_reaper k ≡ k
unfolding wake_reaper
wake_reaper-busy k busy =
    let test : (not (k.terminator_task == 0) && is_paused (state_of k k.terminator_task)) ≡ false =
      ground arith in
    rw test refl

mem-deleted :
    (tcb : ℕ → Task) (p t : ℕ) (xs : List ℕ) → Chain tcb p xs → mem t (delete t xs) ≡ false
mem-deleted tcb p t [] c = refl
mem-deleted tcb p t (x ∷ xs) (e, ne, out, c) = elim (Bool-cases (t == x)) [
  | inl here ↦ rw here (ground arith)
  | inr there ↦ rw there (ground (arith, mem-deleted tcb (tcb x).next t xs c))
]

-- Killing another task that is ready to run and not protected, while the reaper is at work and no
-- switch is due: it leaves the ready queue, whose order stays, for the front of the list of dead
-- tasks.
pub kill_task_by_pid-ready :
    (idle : Kernel → Kernel) (bound : ℕ) {k : Kernel} {t : Table}
    → Calm k
    → Laws.IsValid t
    → k.pid_table ≡ some t
    → (pid task : ℕ) (rs : List ℕ) → Laws.at t pid ≡ task
    → is_elder k task ≡ false
    → task ≢ k.current_task
    → state_of k task ≡ ready
    → Holds (ready_links k) rs
    → mem task rs ≡ true
    → length rs ≤ bound
    → is_paused (state_of k k.terminator_task) ≡ false
    → let (killed, k') = kill_task_by_pid idle bound k pid in (killed ≡ true) × Killed k task rs k'
unfolding kill_task_by_pid lock_stuff unqueue mark_dead ready_remove
kill_task_by_pid-ready idle bound {k} {t} calm v table pid task rs at young other is_ready h inside
      fits busy =
    let (found, kept, spares, off) = remove-delete bound task rs h inside fits in
    let k2 = ready_remove bound (lock_stuff k) task in
    let k3 = mark_dead k2 task in
    let some_task : (task == 0) ≡ false = ground (arith, not-mem-null h) in
    let not_current : (task == k.current_task) ≡ false = ground arith in
    let states : (a : ℕ) → state_of k3 a ≡ (if a == task then dead else state_of k a) =
      λ a. ground (arith, state-spared spares a) in
    let apart : (k.terminator_task == task) ≡ false = ground arith in
    let busy3 = ap is_paused (states k.terminator_task ∙ rw apart refl) ∙ busy in
    let gone = mem-deleted k.tcb k.first_ready task rs h.chain in
    let reaper : wake_reaper k3 ≡ k3 = wake_reaper-busy k3 busy3 in
    let back = unlock_stuff-lock_stuff idle {k = k} k3 calm refl refl calm.none_due in
    rw
      (
        lookup_lem idle bound calm v table pid,
        at,
        some_task,
        young,
        not_current,
        is_ready,
        reaper,
        back,
      )
      (
        refl,
        record {
          ready_queue = record {
            chain =
                Chain-frame k2.tcb k3.tcb k2.first_ready (delete task rs) kept.chain
                  (λ a i. ground arith);
            ends = kept.ends;
          };
          states = states;
          first_dead = refl;
          next_dead = ground arith;
          running_on = refl;
          irq = refl;
        },
      )
