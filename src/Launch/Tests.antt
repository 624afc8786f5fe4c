-- ===== src/Launch/Tests.antt =====
-- The first tasks on a machine that has started.
use toast_os.Prelude.{◌≡◌, refl, true, false, none, [], ◌++◌, arith}
use toast_os.Prelude.Int.{pos}
use toast_os.Pmm.{Pmm}
use toast_os.Vmm.{Vmm}
use toast_os.Tasks.State.{Kernel, zero_task}
use toast_os.Tasks.Sched.Turns.{Runs}
use toast_os.Launch.{Image, BootMemory, init_multitasking}
use toast_os.Launch.First.{queued, init_multitasking-Runs}

abbrev no_frames : Pmm
no_frames = record {
  hhdm_base = 0;
  kernel_phys_base = 0;
  kernel_virt_base = 0;
  kernel_phys_end = 0x8000;
  bitmap_phys = 0x8000;
  bitmap_bytes = 0;
  alloc_start_frame = 0x8000;
  max_frames = 0;
  free_frames = 0;
  b_map = [];
}

abbrev vmm : Vmm
vmm = record {
  pmm = no_frames;
  ram = λ p i. 0;
  contexts = λ c. 0x1000;
  kernel_ctx = 64;
  nx_enabled = false;
  cr3 = 0x1000;
  freed = [];
}

-- The variables of the kernel as the image has them, with interrupts on.
abbrev at_start : Kernel
at_start = record {
  tcb = λ a. zero_task;
  sem = λ s. record {
    max_count = pos 0;
    current_count = pos 0;
    first_waiting_task = 0;
    last_waiting_task = 0;
  };
  current_task = 0;
  t0 = 0;
  shell_task = 0;
  terminator_task = 0;
  first_ready = 0;
  last_ready = 0;
  first_sleeping = 0;
  last_sleeping = 0;
  terminated_list = 0;
  irq = record { disable_counter = 0; enabled = true };
  postpone_counter = 0;
  postponed_flag = false;
  cpu_idle_time = 0;
  last_time_check = 0;
  time_slice_remaining = 0;
  timer = record { tick_count = 3; channel_0_hz = 1000 };
  pid_table = none;
  free_pid_list = [];
  next_greatest_pid = 1;
  tss_rsp0 = 0;
  loaded_cr3 = 0x1000;
  freed = [];
  destroyed = [];
}

abbrev image : Image
image = record {
  init_shell = 0x2000;
  reap_all_tasks = 0x3000;
  boot_name = 0x4000;
  shell_name = 0x4010;
  reaper_name = 0x4020;
}

abbrev memory : BootMemory
memory = record {
  got_table = true;
  got_slots = true;
  t0 = 0x10000;
  grows = true;
  shell = record { task = 0x20000; stack = 0x24000; got_table = true; pid_node = 0x21000 };
  reaper = record { task = 0x30000; stack = 0x34000; got_table = true; pid_node = 0x31000 };
}

init_multitasking-Runs_example :
    let k' = init_multitasking at_start vmm image 0x9000 memory in
    (k'.current_task ≡ 0x10000) × Runs k' (queued k'.shell_task ++ queued k'.terminator_task)
init_multitasking-Runs_example =
    init_multitasking-Runs at_start vmm image 0x9000 memory refl refl
      (record { bounded = omega arith; off_inside = refl }) refl (omega arith) (omega arith)
      (omega arith) (omega arith)
