-- ===== src/Tasks/Life/Create.antt =====
-- What creating a task, task_create_internal of kernel/multitasking/task.c, does to the ready queue.
use toast_os.Prelude.{
  ℕ, ◌≡◌, ◌≢◌, refl, ◌∙◌, ap, sym, Bool, false, List, [], ◌∷◌, ◌++◌, ◌==◌, if◌then◌else◌, arith,
  ◌⊎◌, inl, inr, Bool-cases,
}
use toast_os.Irq
use toast_os.TaskTable.Laws.{irq-task_table_set}
use toast_os.Tasks.State.{Task, Kernel, with_task}
use toast_os.Tasks.Links.Chain.{mem, Chain-frame, state-spared, mem-append}
use toast_os.Tasks.Links.Laws.{push-append}
use toast_os.Tasks.Queues.{ready_push}
use toast_os.Tasks.Sched.{lock_schedule, unlock_schedule}
use toast_os.Tasks.Sched.Turns.{Runs}
use toast_os.Tasks.Pids.{pid_alloc, take_pid, pid_table_insert, pid_release}
use toast_os.Tasks.Life.{Entry, Memory, new_tcb, task_create_internal}

-- The tasks, the ready queue and the locks are as they were.
pub record Quiet (k k' : Kernel) : Type 0 where
  pub same_tcb : k'.tcb ≡ k.tcb
  pub same_first : k'.first_ready ≡ k.first_ready
  pub same_last : k'.last_ready ≡ k.last_ready
  pub same_irq : k'.irq ≡ k.irq
  pub same_count : k'.postpone_counter ≡ k.postpone_counter
  pub same_current : k'.current_task ≡ k.current_task

pub Runs-Quiet : {k k' : Kernel} {xs : List ℕ} → Quiet k k' → Runs k xs → Runs k' xs
Runs-Quiet {k} {k'} {xs} q r =
    let cur = q.same_current in
    record {
      queue = record {
        chain = rw (q.same_tcb, q.same_first) r.queue.chain;
        ends = q.same_last ∙ r.queue.ends;
      };
      irq = rw (q.same_irq) r.irq;
      now = q.same_count ∙ r.now;
      some = λ z. r.some (sym cur ∙ z);
      apart = ap (λ c. mem c xs) cur ∙ r.apart;
      runs = rw (q.same_tcb, cur) r.runs;
    }

Runs-freed :
    {k : Kernel} {xs : List ℕ} (freed : List ℕ) → Runs k xs → Runs (record k { freed = freed }) xs
Runs-freed freed r = record {
  queue = r.queue;
  irq = r.irq;
  now = r.now;
  some = r.some;
  apart = r.apart;
  runs = r.runs;
}

take_pid-Quiet :
    (k : Kernel) (free : List (ℕ × ℕ))
    → Irq.IsValid k.irq
    → Quiet k (take_pid (lock_schedule k) free).1
unfolding take_pid lock_schedule unlock_schedule
take_pid-Quiet k [] v = record {
  same_tcb = refl;
  same_first = refl;
  same_last = refl;
  same_irq = Irq.unlock_schedule-lock_schedule v;
  same_count = refl;
  same_current = refl;
}
take_pid-Quiet k ((node, pid) ∷ free) v = record {
  same_tcb = refl;
  same_first = refl;
  same_last = refl;
  same_irq = Irq.unlock_schedule-lock_schedule v;
  same_count = refl;
  same_current = refl;
}

pid_alloc-Quiet : (k : Kernel) → Irq.IsValid k.irq → Quiet k (pid_alloc k).1
unfolding pid_alloc
pid_alloc-Quiet k v = take_pid-Quiet k (lock_schedule k).free_pid_list v

pub pid_table_insert-Quiet :
    (k : Kernel) (task : ℕ) (got : Bool)
    → Irq.IsValid k.irq
    → Quiet k (pid_table_insert k task got).1
unfolding pid_table_insert
pid_table_insert-Quiet k task got v = elim (Bool-cases (task == 0)) [
  | inl null ↦ rw null (record {
    same_tcb = refl;
    same_first = refl;
    same_last = refl;
    same_irq = refl;
    same_count = refl;
    same_current = refl;
  })
  | inr there ↦ rw there (record {
    same_tcb = refl;
    same_first = refl;
    same_last = refl;
    same_irq = irq-task_table_set k.irq k.pid_table (k.tcb task).pid task got v;
    same_count = refl;
    same_current = refl;
  })
]

pid_release-Quiet :
    (k : Kernel) (pid node : ℕ) → Irq.IsValid k.irq → Quiet k (pid_release k pid node)
unfolding pid_release lock_schedule unlock_schedule
pid_release-Quiet k pid node v = elim (Bool-cases (node == 0)) [
  | inl null ↦ rw null (record {
    same_tcb = refl;
    same_first = refl;
    same_last = refl;
    same_irq = refl;
    same_count = refl;
    same_current = refl;
  })
  | inr there ↦ rw there (record {
    same_tcb = refl;
    same_first = refl;
    same_last = refl;
    same_irq = Irq.unlock_schedule-lock_schedule v;
    same_count = refl;
    same_current = refl;
  })
]

-- A new TCB, for a task that neither runs nor waits for its turn.
Runs-with_task :
    {k : Kernel} {xs : List ℕ} (task : ℕ) (f : Task → Task)
    → Runs k xs
    → mem task xs ≡ false
    → task ≢ k.current_task
    → Runs (with_task k task f) xs
Runs-with_task {k} {xs} task f r out ne =
    let k' = with_task k task f in
    let other : (k.current_task == task) ≡ false = ground arith in
    record {
      queue = record {
        chain = Chain-frame k.tcb k'.tcb k.first_ready xs r.queue.chain (λ a i. ground arith);
        ends = r.queue.ends;
      };
      irq = r.irq;
      now = r.now;
      some = r.some;
      apart = r.apart;
      runs =
          ap (λ c. (if c then f (k.tcb k.current_task) else k.tcb k.current_task).state) other
          ∙ r.runs;
    }

Runs-ready_push :
    {k : Kernel} {xs : List ℕ} (task : ℕ)
    → Runs k xs
    → task ≢ 0
    → mem task xs ≡ false
    → task ≢ k.current_task
    → Runs (unlock_schedule (ready_push (lock_schedule k) task)) (xs ++ task ∷ [])
unfolding ready_push lock_schedule unlock_schedule
Runs-ready_push {k} {xs} task r there out ne =
    let (queue, spares) = push-append xs task r.queue there out in
    record {
      queue = queue;
      irq = rw (Irq.unlock_schedule-lock_schedule r.irq) r.irq;
      now = r.now;
      some = r.some;
      apart = ground (arith, r.apart, mem-append k.current_task xs (task ∷ []));
      runs = state-spared spares k.current_task ∙ r.runs;
    }

current-ready_push :
    (k : Kernel) (task : ℕ)
    → (unlock_schedule (ready_push (lock_schedule k) task)).current_task ≡ k.current_task
unfolding ready_push lock_schedule unlock_schedule
current-ready_push k task = refl

-- What creating a task comes to while `current` runs: nothing for the queue, or the new task behind
-- the last.
abbrev pub Created : (current task : ℕ) → List ℕ → ℕ × Kernel → Type 0
Created current task xs (answer, k') =
    (k'.current_task ≡ current)
    × (((answer ≡ 0) × Runs k' xs) ⊎ ((answer ≡ task) × (task ≢ 0) × Runs k' (xs ++ task ∷ [])))

-- While a task runs and the locks are open, creating a task at an address that neither the running
-- task nor a ready one has either answers 0 and leaves the ready queue as it was, or answers the
-- address, which is not 0, with the new task behind the last of the ready queue; the same task
-- runs on, with the locks open, in both cases.
pub task_create_internal-Runs :
    (k : Kernel) (e : Entry) (m : Memory) (xs : List ℕ)
    → Runs k xs
    → mem m.task xs ≡ false
    → m.task ≢ k.current_task
    → Created k.current_task m.task xs (task_create_internal k e m)
unfolding task_create_internal
task_create_internal-Runs k e m xs r out ne =
    let (pid, k1) = pid_alloc k in
    let q1 = pid_alloc-Quiet k r.irq in
    let ne1 : m.task ≢ k1.current_task = λ z. ne (z ∙ q1.same_current) in
    let k2 = with_task k1 m.task (λ _. new_tcb e m.stack pid) in
    let r2 = Runs-with_task m.task (λ _. new_tcb e m.stack pid) (Runs-Quiet q1 r) out ne1 in
    let (ok, k3) = pid_table_insert k2 m.task m.got_table in
    let q3 = pid_table_insert-Quiet k2 m.task m.got_table r2.irq in
    let r3 = Runs-Quiet q3 r2 in
    let ne3 : m.task ≢ k3.current_task = λ z. ne1 (z ∙ q3.same_current) in
    let q4 = pid_release-Quiet k3 pid m.pid_node r3.irq in
    let undone = Runs-Quiet q4 r3 in
    let same = q3.same_current ∙ q1.same_current in
    elim (Bool-cases (m.task == 0)) [
      | inl null ↦ rw null (refl, inl (refl, r))
      | inr there ↦ elim (Bool-cases (m.stack == 0)) [
        | inl fails ↦ rw (there, fails) (refl, inl (refl, Runs-freed (m.task ∷ k.freed) r))
        | inr stack ↦ elim (Bool-cases ok) [
          | inr bad ↦
              rw (there, stack, bad)
                (
                  q4.same_current ∙ same,
                  inl (
                    refl,
                    Runs-freed (m.task ∷ m.stack ∷ (pid_release k3 pid m.pid_node).freed) undone,
                  ),
                )
          | inl good ↦
              rw (there, stack, good)
                (
                  current-ready_push k3 m.task ∙ same,
                  inr (refl, ground arith, Runs-ready_push m.task r3 (ground arith) out ne3),
                )
        ]
      ]
    ]
