-- ===== src/Shell/Tests.antt =====
-- The theorems on kernel/shell/tsh.c at a small history and a small machine.
use toast_os.Prelude.{zero, suc, ◌≡◌, refl, false, [], ◌∷◌, List, ◌++◌, some, arith, replicate}
use toast_os.Prelude.{ℕ, true, codes, none}
use toast_os.Stdio.{printf}
use toast_os.Pmm.{Pmm}
use toast_os.Vmm.{Vmm}
use toast_os.Pmm.Init.{Entry}
use toast_os.Tasks.State.{Kernel, Semaphore, zero_task}
use toast_os.Shell.Args.{shell_exec}
use toast_os.Stdio.Calls.{Call, format, put, number}
use toast_os.Shell.Commands.{cmd_echo}
use toast_os.Shell.Info.{cmd_meminfo, cmd_memmap, cmd_fetch}
use toast_os.Shell.TaskCommands.{cmd_kill, cmd_status, shell_cmd_kill, shell_cmd_status}
use toast_os.Stdio.Ends.{Ends}
use toast_os.Shell.Reports.{reports_end}
use toast_os.Shell.Killing.{cmd_kill-printf}
use toast_os.Shell.Session.{Machine, Facts, run_exec, run_strings, shell_exec-words}
use toast_os.Prelude.Int.{pos}
use toast_os.Console.{Console, con_white, con_black}
use toast_os.Shell.{Shell, Mode.bracket, key, readline, get_prev_cmd, update_history}
use toast_os.Shell.Line.{Holds, Remembered, edit, before, later, key-Holds}
use toast_os.Shell.Read.{typed, readline-typed, get_prev_cmd-update_history}
use toast_os.Shell.Args.{parse_pid_arg}
use toast_os.Shell.Pids.{parse_pid_arg_lem}

abbrev screen : Console
screen = record {
  ansi_state = 0;
  ansi_param = 0;
  cursor_visible = false;
  cursor_blink_counter = 0;
  con_fg = con_white;
  con_bg = con_black;
  cursor_col = 0;
  cursor_row = 0;
  con_cols = 80;
  con_rows = 25;
  font_width = 8;
  font_height = 16;
  fb_addr = 4096;
  drawn = [];
}

-- `ps` has been typed, and now an `x`.
abbrev after_ps : Shell
after_ps = record {
  con = screen;
  history_count = 1;
  prev_command_index = 1;
  cmd_history = (112 ∷ 115 ∷ 0 ∷ []) ∷ [];
  buf = 120 ∷ replicate 255 0;
  buf_index = 1;
}

abbrev fresh : Shell
fresh = record {
  con = screen;
  history_count = 7;
  prev_command_index = 7;
  cmd_history = replicate 8 (replicate 256 0);
  buf = replicate 256 0;
  buf_index = 0;
}

after_ps-Remembered : Remembered after_ps
after_ps-Remembered zero = omega arith
after_ps-Remembered (suc i) = omega arith

after_ps-Holds : Holds after_ps (120 ∷ [])
after_ps-Holds = record { short = omega arith; at_end = refl; bytes = refl }

key-Holds_example :
    Holds
      (key bracket 65 after_ps).1
      (edit (before after_ps) (later after_ps) bracket 65 (120 ∷ []))
key-Holds_example = key-Holds bracket 65 after_ps (120 ∷ []) after_ps-Remembered after_ps-Holds

-- `psx`, a backspace and the end of the line.
readline-typed_example :
    (s : Shell) × (readline (112 ∷ 115 ∷ 120 ∷ 8 ∷ 10 ∷ 97 ∷ []) fresh ≡ some (s, 97 ∷ []))
    × Holds s (typed (112 ∷ 115 ∷ 120 ∷ 8 ∷ []) [])
readline-typed_example =
    readline-typed (112 ∷ 115 ∷ 120 ∷ 8 ∷ []) (97 ∷ []) fresh (refl, (refl, (refl, (refl, tt))))

get_prev_cmd-update_history_example :
    Holds (get_prev_cmd (update_history fresh (112 ∷ 115 ∷ 0 ∷ []))) (112 ∷ 115 ∷ [])
get_prev_cmd-update_history_example =
    get_prev_cmd-update_history fresh (112 ∷ 115 ∷ 0 ∷ []) refl refl (omega arith) (omega arith)
      (omega arith)

parse_pid_arg_lem_example : parse_pid_arg (some (52 ∷ 50 ∷ [])) ≡ some 42
parse_pid_arg_lem_example = parse_pid_arg_lem 52 (50 ∷ [])

abbrev small_pmm : Pmm
small_pmm = record {
  hhdm_base = 0;
  kernel_phys_base = 0;
  kernel_virt_base = 0;
  kernel_phys_end = 0;
  bitmap_phys = 4096;
  bitmap_bytes = 1;
  alloc_start_frame = 2;
  max_frames = 8;
  free_frames = 0;
  b_map = 255 ∷ [];
}

abbrev small_vmm : Vmm
small_vmm = record {
  pmm = small_pmm;
  ram = λ p i. 0;
  contexts = λ c. 4096;
  kernel_ctx = 64;
  nx_enabled = true;
  cr3 = 4096;
  freed = [];
}

abbrev no_semaphore : Semaphore
no_semaphore = record {
  max_count = pos 0;
  current_count = pos 0;
  first_waiting_task = 0;
  last_waiting_task = 0;
}

-- Only the shell runs; its pid is 1.
abbrev small_kernel : Kernel
small_kernel = record {
  tcb = λ a. record zero_task { pid = 1 };
  sem = λ s. no_semaphore;
  current_task = 24;
  t0 = 8;
  shell_task = 24;
  terminator_task = 40;
  first_ready = 0;
  last_ready = 0;
  first_sleeping = 0;
  last_sleeping = 0;
  terminated_list = 0;
  irq = record { disable_counter = 0; enabled = true };
  postpone_counter = 0;
  postponed_flag = false;
  cpu_idle_time = 0;
  last_time_check = 0;
  time_slice_remaining = 0;
  timer = record { tick_count = 7500; channel_0_hz = 100 };
  pid_table = some (record { slots = 8 ∷ 24 ∷ []; cap = 2 });
  free_pid_list = [];
  next_greatest_pid = 2;
  tss_rsp0 = 0;
  loaded_cr3 = 0;
  freed = [];
  destroyed = [];
}

abbrev machine : Machine
machine = record {
  shell = fresh;
  kernel = small_kernel;
  kheap = record { k_heap = none; vmm = small_vmm };
}

abbrev regions : List Entry
regions =
    record { base = 0; len = 4096; typ = 1 }
    ∷ record { base = 4096; len = 2097152; typ = 0 }
    ∷ record { base = 4194304; len = 8192; typ = 0 }
    ∷ []

abbrev facts : Facts
facts = record { bitmap = 4096; memmap = some regions; cpu_name = []; names = λ a. codes "tsh" }

abbrev idle : Kernel → Kernel
idle k = k

reports_end_example :
    Ends (cmd_meminfo machine.kheap 4096)
    × Ends (cmd_memmap (some regions))
    × Ends (cmd_fetch small_kernel.timer small_pmm [])
    × ((lines : List Call) × (cmd_memmap (some regions)
          ≡ lines
            ++ format
                (codes " Total usable: %llu MiB (%llu bytes)\n")
                (number 2 ∷ number 2105344 ∷ [])
              ∷ put (codes "========================================================\n")
              ∷ []))
reports_end_example = reports_end machine.kheap 4096 small_kernel.timer small_pmm [] regions

-- `kill 2`
cmd_kill-printf_example :
    (shown : List ℕ) × (printf (codes "%lu") (number 2 ∷ []) ≡ some shown)
    × (cmd_kill idle 4 small_kernel (codes "kill" ∷ shown ∷ [])
        ≡ shell_cmd_kill idle 4 small_kernel 2)
    × (cmd_status facts.names small_kernel (codes "kill" ∷ shown ∷ [])
        ≡ shell_cmd_status facts.names small_kernel 2)
cmd_kill-printf_example =
    cmd_kill-printf facts.names idle 4 small_kernel 2 (codes "kill") (omega arith)

shell_exec-words_example :
    run_exec facts idle 4 machine (shell_exec (codes "echo  a b" ++ 0 ∷ 9 ∷ []))
    ≡ run_strings facts idle 4 machine (codes "echo" ∷ codes "a" ∷ codes "b" ∷ [])
shell_exec-words_example =
    shell_exec-words facts idle 4 machine (codes "echo  a b") (9 ∷ [])
      (refl, (refl, (refl, (refl, (refl, (refl, (refl, (refl, (refl, tt)))))))))

echo_a_b : cmd_echo (codes "echo" ∷ codes "a" ∷ codes "b" ∷ []) ≡ codes "a b\n"
unfolding cmd_echo
echo_a_b = refl
