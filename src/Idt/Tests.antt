-- ===== src/Idt/Tests.antt =====
-- The theorems on kernel/idt/idt.c at one table and one task in ring 3.
use toast_os.Prelude.{◌≡◌, true, false, none, some, [], ◌==◌, if◌then◌else◌, arith}
use toast_os.Prelude.Int.{pos}
use toast_os.Tasks.State.{ready, running, Kernel, zero_task}
use toast_os.Idt.{Idt, init_idt, Outcome.killed}
use toast_os.Idt.Gates.{target, target-init_idt}

abbrev blank_table : Idt
blank_table = record {
  idt_ent = λ i. record {
    base_lo = 0;
    selector = 0;
    ist = 0;
    flags = 0;
    base_mid = 0;
    base_hi = 0;
    reserved = 0;
  };
  irq_map = λ i. 0;
  base = 0;
  lim = 0;
  ports = [];
}

-- The vector of line 1, the keyboard's.
target-init_idt_example :
    target
      ((init_idt 4096 (λ v. 0xFFFFFFFF80001000) (λ v. 0xFFFFFFFF80002000) blank_table).idt_ent 33)
    ≡ some 0xFFFFFFFF80002000
target-init_idt_example =
    target-init_idt 4096 (λ v. 0xFFFFFFFF80001000) (λ v. 0xFFFFFFFF80002000) blank_table 33
      (λ w. omega arith) (λ w. omega arith) (omega arith)

-- Task 16 runs in ring 3.
abbrev one_task : Kernel
one_task = record {
  tcb = λ a. record zero_task { is_user = true };
  sem = λ s. record {
    max_count = pos 1;
    current_count = pos 0;
    first_waiting_task = 0;
    last_waiting_task = 0;
  };
  current_task = 16;
  t0 = 8;
  shell_task = 24;
  terminator_task = 40;
  first_ready = 0;
  last_ready = 0;
  first_sleeping = 0;
  last_sleeping = 0;
  terminated_list = 0;
  irq = record { disable_counter = 0; enabled = true };
  postpone_counter = 0;
  postponed_flag = false;
  cpu_idle_time = 0;
  last_time_check = 0;
  time_slice_remaining = 0;
  timer = record { tick_count = 3; channel_0_hz = 1000 };
  pid_table = none;
  free_pid_list = [];
  next_greatest_pid = 4;
  tss_rsp0 = 0;
  loaded_cr3 = 0;
  freed = [];
  destroyed = [];
}

abbrev to_reaper : Kernel → Kernel
to_reaper k = record k { current_task = 40 }

-- A second task, at 32, is ready.
abbrev two_tasks : Kernel
two_tasks = record one_task {
  first_ready = 32;
  last_ready = 32;
  tcb = λ a. record zero_task { is_user = true; state = if a == 16 then running else ready };
}
