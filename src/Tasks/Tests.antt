-- ===== src/Tasks/Tests.antt =====
-- The theorems on kernel/multitasking/task.c and pidTable.c at one small system.
use toast_os.Prelude.{
  ℕ, ◌≤◌, ◌<◌, All, List, ◌++◌, ◌≡◌, refl, true, false, [], ◌∷◌, some, arith, ◌==◌, ◌||◌,
  if◌then◌else◌,
}
use toast_os.Prelude.Int.{pos}
use toast_os.Irq
use toast_os.TaskTable.{Table}
use toast_os.TaskTable.Laws
use toast_os.Tasks.State.{
  TaskState, ready, running, sleeping, waiting_for_lock, Semaphore, Kernel, zero_task,
}
use toast_os.Tasks.Links.{insert}
use toast_os.Tasks.Links.Chain.{mem, Holds, Spares}
use toast_os.Tasks.Links.Order.{insert-place}
use toast_os.Tasks.Links.Place.{SortedFrom}
use toast_os.Tasks.Queues.{ready_links, sleep_links}
use toast_os.Tasks.Sched.{yield_cpu, wake_sleepers}
use toast_os.Tasks.Sched.Laws.{Switched}
use toast_os.Tasks.Sched.Turns.{Runs, yields, yield_cpu_turn, yields_reach}
use toast_os.Tasks.Sched.Wake.{Woken, due, late, Apart, wake_sleepers_lem}
use toast_os.Tasks.Pids.{pid_alloc}
use toast_os.Tasks.Pids.Laws.{Accounts, pid_alloc_fresh}
use toast_os.Tasks.Sync.{release_semaphore}
use toast_os.Tasks.Sync.Laws.{Calm, HandedOver, release_semaphore-waiting}
use toast_os.Tasks.Life.{Entry, Memory, kill_task_by_pid, task_create_internal}
use toast_os.Tasks.Life.Create.{Created, task_create_internal-Runs}
use toast_os.Tasks.Life.Kill.{Killed, kill_task_by_pid-ready}

-- Task 16 runs, 32 and 48 are ready, 64 and 80 sleep until 5 and 9, 96 waits for semaphore 512; 8 is
-- the boot task, 24 the shell and 40 the reaper. Other addresses are free.
abbrev some_state : ℕ → TaskState
some_state a =
    if a == 16
    then running
    else if (a == 64) || (a == 80)
    then sleeping
    else if a == 96
    then waiting_for_lock
    else ready

abbrev some_next : ℕ → ℕ
some_next a = if a == 32 then 48 else if a == 64 then 80 else 0

abbrev some_wake : ℕ → ℕ
some_wake a = if a == 64 then 5 else if a == 80 then 9 else 7

abbrev some_sem : ℕ → Semaphore
some_sem s =
    if s == 512
    then record {
      max_count = pos 1;
      current_count = pos 1;
      first_waiting_task = 96;
      last_waiting_task = 96;
    }
    else record {
      max_count = pos 2;
      current_count = pos 0;
      first_waiting_task = 0;
      last_waiting_task = 0;
    }

abbrev some_table : Table
some_table = record { slots = 8 ∷ 24 ∷ 32 ∷ []; cap = 3 }

abbrev system : Kernel
system = record {
  tcb = λ a. record zero_task { state = some_state a; next = some_next a; wake_time = some_wake a };
  sem = some_sem;
  current_task = 16;
  t0 = 8;
  shell_task = 24;
  terminator_task = 40;
  first_ready = 32;
  last_ready = 48;
  first_sleeping = 64;
  last_sleeping = 80;
  terminated_list = 0;
  irq = record { disable_counter = 0; enabled = true };
  postpone_counter = 0;
  postponed_flag = false;
  cpu_idle_time = 0;
  last_time_check = 0;
  time_slice_remaining = 0;
  timer = record { tick_count = 3; channel_0_hz = 1000 };
  pid_table = some some_table;
  free_pid_list = (900, 3) ∷ [];
  next_greatest_pid = 4;
  tss_rsp0 = 0;
  loaded_cr3 = 0;
  freed = [];
  destroyed = [];
}

abbrev no_idle : Kernel → Kernel
no_idle k = k

system-irq : Irq.IsValid system.irq
system-irq = record { bounded = omega arith; off_inside = refl }

system-Calm : Calm system
system-Calm = record { irq = system-irq; small = omega arith; none_due = refl }

system-ready : Holds (ready_links system) (32 ∷ 48 ∷ [])
system-ready = record {
  chain = (refl, omega arith, refl, (refl, omega arith, refl, refl));
  ends = refl;
}

system-sleepers : Holds (sleep_links system) (64 ∷ 80 ∷ [])
system-sleepers = record {
  chain = (refl, omega arith, refl, (refl, omega arith, refl, refl));
  ends = refl;
}

system-Runs : Runs system (32 ∷ 48 ∷ [])
system-Runs = record {
  queue = system-ready;
  irq = system-irq;
  now = refl;
  some = omega arith;
  apart = refl;
  runs = refl;
}

yields_reach_example : (yields no_idle 2 system).current_task ≡ 48
yields_reach_example = yields_reach no_idle system (32 ∷ []) 48 [] system-Runs

yield_cpu_turn_example : Switched system (32 ∷ 48 ∷ []) 32 (48 ∷ 16 ∷ []) (yield_cpu no_idle system)
yield_cpu_turn_example = yield_cpu_turn no_idle system 32 (48 ∷ []) system-Runs

abbrev alone : Kernel
alone = record system { first_ready = 0; last_ready = 0 }

alone-Runs : Runs alone []
alone-Runs = record {
  queue = record { chain = refl; ends = refl };
  irq = system-irq;
  now = refl;
  some = omega arith;
  apart = refl;
  runs = refl;
}

sleepers-Apart : Apart (64 ∷ 80 ∷ []) (32 ∷ 48 ∷ [])
sleepers-Apart a i = ground arith

wake_sleepers_lem_example :
    Woken system
      (wake_sleepers 2 5 system)
      (32 ∷ 48 ∷ [])
      (due system 5 (64 ∷ 80 ∷ []))
      (late system 5 (64 ∷ 80 ∷ []))
wake_sleepers_lem_example =
    wake_sleepers_lem 5 system (32 ∷ 48 ∷ []) (64 ∷ 80 ∷ []) system-irq system-ready system-sleepers
      sleepers-Apart

waiter-Apart : Apart (96 ∷ []) (32 ∷ 48 ∷ [])
waiter-Apart a i = ground arith

release_semaphore-waiting_example :
    HandedOver system 512 96 [] (32 ∷ 48 ∷ []) (release_semaphore no_idle system 512)
release_semaphore-waiting_example =
    release_semaphore-waiting no_idle system-Calm 512 96 [] (32 ∷ 48 ∷ [])
      (record { chain = (refl, omega arith, refl, refl); ends = refl }) system-ready waiter-Apart

some_table-IsValid : Laws.IsValid some_table
some_table-IsValid = record { sized = refl; nonempty = omega arith; fits = omega arith }

kill_task_by_pid-ready_example :
    let (killed, k') = kill_task_by_pid no_idle 2 system 2 in
    (killed ≡ true) × Killed system 32 (32 ∷ 48 ∷ []) k'
kill_task_by_pid-ready_example =
    kill_task_by_pid-ready no_idle 2 system-Calm some_table-IsValid refl 2 32 (32 ∷ 48 ∷ []) refl
      refl (omega arith) refl system-ready refl (omega arith) refl

system-Accounts : Accounts system (0 ∷ 1 ∷ 2 ∷ [])
system-Accounts = record {
  live_below = λ p i. ground arith;
  free_below = λ p i. ground arith;
  distinct = (refl, tt);
  apart = λ p i. ground arith;
}

pid_alloc_fresh_example :
    (mem (pid_alloc system).0 (0 ∷ 1 ∷ 2 ∷ []) ≡ false)
    × Accounts (pid_alloc system).1 ((pid_alloc system).0 ∷ 0 ∷ 1 ∷ 2 ∷ [])
pid_alloc_fresh_example = pid_alloc_fresh system (0 ∷ 1 ∷ 2 ∷ []) system-Accounts (omega arith)

insert-place_example :
    (before after : List ℕ) × (64 ∷ 80 ∷ [] ≡ before ++ after)
    × Holds (insert 2 (sleep_links system) 96) (before ++ 96 ∷ after)
    × All (λ a. some_wake a ≤ 7) before
    × All (λ a. 7 < some_wake a) after
    × SortedFrom
        (λ a. ((insert 2 (sleep_links system) 96).tcb a).wake_time)
        0
        (before ++ 96 ∷ after)
    × Spares (96 ∷ 64 ∷ 80 ∷ []) system.tcb (insert 2 (sleep_links system) 96).tcb
insert-place_example =
    insert-place 2 96 (64 ∷ 80 ∷ []) system-sleepers (omega arith) (omega arith) refl (omega arith)

abbrev some_entry : Entry
some_entry = record {
  name = 4096;
  fn = 8192;
  arg0 = 0;
  arg1 = 0;
  ctx = 12288;
  ctx_pml_phys = 16384;
  is_user = false;
}

abbrev some_memory : Memory
some_memory = record { task = 112; stack = 65536; got_table = true; pid_node = 128 }

task_create_internal-Runs_example :
    Created 16 112 (32 ∷ 48 ∷ []) (task_create_internal system some_entry some_memory)
task_create_internal-Runs_example =
    task_create_internal-Runs system some_entry some_memory (32 ∷ 48 ∷ []) system-Runs refl
      (omega arith)
