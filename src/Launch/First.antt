-- ===== src/Launch/First.antt =====
-- The first tasks: what init_multitasking of kernel/multitasking/task.c leaves.
use mathlib.Core.Path.{subst}
use toast_os.Prelude.{
  ℕ, ◌≡◌, ◌≢◌, refl, ◌∙◌, ap, sym, Bool, false, List, [], ◌∷◌, ◌++◌, ◌==◌, if◌then◌else◌, arith,
  inl, inr, Bool-cases, append-nil,
}
use toast_os.Irq
use toast_os.Vmm.{Vmm}
use toast_os.Tasks.State.{Kernel, update}
use toast_os.Tasks.Links.Chain.{mem}
use toast_os.Tasks.Queues.{ready_push}
use toast_os.Tasks.Sched.{lock_schedule, unlock_schedule, update_task_time}
use toast_os.Tasks.Sched.Turns.{Runs}
use toast_os.Tasks.Pids.{pid_table_init, pid_table_insert, pid_alloc, take_pid, pid_release}
use toast_os.Tasks.Life.{Entry, Memory, new_tcb, task_create_internal}
use toast_os.Tasks.Life.Create.{
  Created, Runs-Quiet, pid_table_insert-Quiet, task_create_internal-Runs,
}
use toast_os.Launch.{Image, BootMemory, boot_task, create_kernel_task, init_multitasking}

-- What a task that may have failed to come into being adds to a queue.
abbrev pub queued : ℕ → List ℕ
queued a = if a == 0 then [] else a ∷ []

shell-take_pid : (k : Kernel) (free : List (ℕ × ℕ)) → (take_pid k free).1.shell_task ≡ k.shell_task
unfolding take_pid unlock_schedule
shell-take_pid k [] = refl
shell-take_pid k (x ∷ free) = refl

shell-pid_alloc : (k : Kernel) → (pid_alloc k).1.shell_task ≡ k.shell_task
unfolding pid_alloc lock_schedule
shell-pid_alloc k = shell-take_pid (lock_schedule k) (lock_schedule k).free_pid_list

shell-pid_table_insert :
    (k : Kernel) (task : ℕ) (got : Bool) → (pid_table_insert k task got).1.shell_task ≡ k.shell_task
unfolding pid_table_insert
shell-pid_table_insert k task got = elim (Bool-cases (task == 0)) [
  | inl null ↦ rw null refl
  | inr there ↦ rw there refl
]

shell-pid_release : (k : Kernel) (pid node : ℕ) → (pid_release k pid node).shell_task ≡ k.shell_task
unfolding pid_release lock_schedule unlock_schedule
shell-pid_release k pid node = elim (Bool-cases (node == 0)) [
  | inl null ↦ rw null refl
  | inr there ↦ rw there refl
]

-- Creating a task does not touch the shell's pointer.
shell-task_create_internal :
    (k : Kernel) (e : Entry) (m : Memory) → (task_create_internal k e m).1.shell_task ≡ k.shell_task
unfolding task_create_internal ready_push lock_schedule unlock_schedule
shell-task_create_internal k e m =
    let (pid, k1) = pid_alloc k in
    let k2 = record k1 { tcb = update k1.tcb m.task (λ _. new_tcb e m.stack pid) } in
    let (ok, k3) = pid_table_insert k2 m.task m.got_table in
    let same = shell-pid_table_insert k2 m.task m.got_table ∙ shell-pid_alloc k in
    elim (Bool-cases (m.task == 0)) [
      | inl null ↦ rw null refl
      | inr there ↦ elim (Bool-cases (m.stack == 0)) [
        | inl fails ↦ rw (there, fails) refl
        | inr stack ↦ elim (Bool-cases ok) [
          | inr bad ↦ rw (there, stack, bad) (shell-pid_release k3 pid m.pid_node ∙ same)
          | inl good ↦ rw (there, stack, good) same
        ]
      ]
    ]

-- A created task, by the answer.
Runs-Created :
    {current task : ℕ} {xs : List ℕ} (made : ℕ × Kernel)
    → Created current task xs made
    → Runs made.1 (xs ++ queued made.0)
Runs-Created {current} {task} {xs} (answer, k) (same, inl (e, r)) = rw e (rw (append-nil xs) r)
Runs-Created {current} {task} {xs} (answer, k) (same, inr (e, there, r)) =
    let test : (task == 0) ≡ false = ground arith in rw (e, test) r

-- Another address is not that of a task created on an empty queue.
out-Created :
    {current task other : ℕ} (made : ℕ × Kernel)
    → Created current task [] made
    → other ≢ task
    → mem other (queued made.0) ≡ false
out-Created (answer, k) (same, inl (e, r)) ne = ground arith
out-Created (answer, k) (same, inr (e, there, r)) ne = ground arith

abbrev kernel_entry : Vmm → (eip name : ℕ) → Entry
kernel_entry v eip name = record {
  name = name;
  fn = eip;
  arg0 = 0;
  arg1 = 0;
  ctx = v.kernel_ctx;
  ctx_pml_phys = v.contexts v.kernel_ctx;
  is_user = false;
}

-- The two pointers to tasks do not matter to the queue.
Runs-named :
    {k : Kernel} {xs : List ℕ} (shell reaper : ℕ)
    → Runs k xs
    → Runs (record k { shell_task = shell; terminator_task = reaper }) xs
Runs-named shell reaper r = record {
  queue = r.queue;
  irq = r.irq;
  now = r.now;
  some = r.some;
  apart = r.apart;
  runs = r.runs;
}

Runs-same : {k : Kernel} {xs ys : List ℕ} → xs ≡ ys → Runs k xs → Runs k ys
Runs-same {k} e r = subst (λ zs. Runs k zs) e r

-- The boot task, before the others.
module _ (k : Kernel) (v : Vmm) (image : Image) (boot_rsp : ℕ) (m : BootMemory)
    (first0 : k.first_ready ≡ 0) (last0 : k.last_ready ≡ 0) (irq0 : Irq.IsValid k.irq)
    (now0 : k.postpone_counter ≡ 0) (some0 : m.t0 ≢ 0) where
  booted : Kernel
  booted = update_task_time (record (pid_table_init k m.got_table m.got_slots) {
    tcb = update k.tcb m.t0 (λ t. boot_task v image.boot_name boot_rsp);
    t0 = m.t0;
    current_task = m.t0;
    last_time_check = 0;
  })

  -- It runs, and nothing waits.
  booted-Runs : Runs booted []
  unfolding booted update_task_time pid_table_init
  booted-Runs =
      let test : (m.t0 == 0) ≡ false = ground arith in
      record {
        queue = record { chain = first0; ends = last0 };
        irq = irq0;
        now = now0;
        some = some0;
        apart = refl;
        runs = rw test (ground arith);
      }

  booted-current : booted.current_task ≡ m.t0
  unfolding booted update_task_time pid_table_init
  booted-current = refl

  -- On a kernel with nothing ready, with switches not postponed and the interrupt lock in order,
  -- with a first TCB that is not NULL and the three TCBs at different addresses, init_multitasking
  -- leaves the boot task running with the locks open, and on the ready queue the shell and behind
  -- it the reaper, each unless it could not be created and its pointer is NULL.
  pub init_multitasking-Runs :
      m.shell.task ≢ m.t0
      → m.reaper.task ≢ m.t0
      → m.reaper.task ≢ m.shell.task
      → let k' = init_multitasking k v image boot_rsp m in
        (k'.current_task ≡ m.t0) × Runs k' (queued k'.shell_task ++ queued k'.terminator_task)
  unfolding init_multitasking create_kernel_task pid_table_init booted
  init_multitasking-Runs shell_ne reaper_ne apart =
      let q = pid_table_insert-Quiet booted m.t0 m.grows booted-Runs.irq in
      let k3 = (pid_table_insert booted m.t0 m.grows).1 in
      let r3 = Runs-Quiet q booted-Runs in
      let cur3 = q.same_current ∙ booted-current in
      let e4 = kernel_entry v image.init_shell image.shell_name in
      let c4 = task_create_internal-Runs k3 e4 m.shell [] r3 refl (λ z. shell_ne (z ∙ cur3)) in
      let (shell, k4) = task_create_internal k3 e4 m.shell in
      let r4 = Runs-Created (shell, k4) c4 in
      let k4' = record k4 { shell_task = shell } in
      let e5 = kernel_entry v image.reap_all_tasks image.reaper_name in
      let c5 =
        task_create_internal-Runs k4' e5 m.reaper (queued shell)
          (Runs-named shell k4.terminator_task r4) (out-Created (shell, k4) c4 apart)
          (λ z. reaper_ne (z ∙ c4.0 ∙ cur3)) in
      let (reaper, k5) = task_create_internal k4' e5 m.reaper in
      let named = shell-task_create_internal k4' e5 m.reaper in
      (
        c5.0 ∙ c4.0 ∙ cur3,
        Runs-same (ap (λ z. queued z ++ queued reaper) (sym named))
            (Runs-named k5.shell_task reaper (Runs-Created (reaper, k5) c5)),
      )
