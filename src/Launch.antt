-- ===== src/Launch.antt =====
-- How tasks come into being, kernel/multitasking/task.c: create_kernel_task and create_user_task,
-- over the page tables and the heap; and the first tasks, init_multitasking.
pub mod First
mod Tests
use toast_os.Prelude.{
  ℕ, ◌+◌, ◌-◌, ◌*◌, Bool, true, false, Option, none, some, ◌==◌, if◌then◌else◌, leb, ◌||◌, u64,
  bit_or, ◌>>=◌,
}
use toast_os.Vmm.{Vmm, vmm_create_context, vmm_destroy_context, vmm_nx_flag}
use toast_os.Vmm.Users.{vmm_user_alloc}
use toast_os.Tasks.State.{Kernel, Task, TaskState, zero_task, update}
use toast_os.Tasks.Sched.{unlock_schedule, update_task_time}
use toast_os.Tasks.Pids.{pid_table_init, pid_table_insert}
use toast_os.Tasks.Life.{Entry, Memory, task_create_internal, terminate_task}

abbrev pub user_code_base : ℕ
user_code_base = 0x400000

abbrev pub user_stack_top : ℕ
user_stack_top = 0x00007FFFFFFFF000

abbrev pub user_stack_size : ℕ
user_stack_size = 16 * 4096

-- `eip` is the address of the task's function.
unfoldable pub create_kernel_task : Kernel → Vmm → (eip name : ℕ) → Memory → ℕ × Kernel
create_kernel_task k v eip name m =
    task_create_internal k
      (record {
        name = name;
        fn = eip;
        arg0 = 0;
        arg1 = 0;
        ctx = v.kernel_ctx;
        ctx_pml_phys = v.contexts v.kernel_ctx;
        is_user = false;
      })
      m

-- A user task that starts in `user_task_launcher` with the entry point and the stack pointer.
abbrev pub launch_entry : Vmm → (ctx launcher entry_offset name : ℕ) → Entry
launch_entry v ctx launcher entry_offset name = record {
  name = name;
  fn = launcher;
  arg0 = u64 (user_code_base + entry_offset);
  arg1 = user_stack_top - 8;
  ctx = ctx;
  ctx_pml_phys = v.contexts ctx;
  is_user = true;
}

-- The stack, once the image is mapped.
abbrev pub map_stack : (ctx : ℕ) → Bool × Vmm → Option (Bool × Vmm)
map_stack ctx (false, v) = some (false, v)
map_stack ctx (true, v) =
    vmm_user_alloc v ctx (user_stack_top - user_stack_size) user_stack_size
      (bit_or 7 (vmm_nx_flag v)) none 0

-- The image and the stack of a task in its address space: whether both could be mapped.
unfoldable pub map_image :
    Vmm → (ctx : ℕ) → (image : ℕ → ℕ) → (image_size : ℕ) → Option (Bool × Vmm)
map_image v ctx image image_size = do
  out ← vmm_user_alloc v ctx user_code_base image_size 7 (some image) image_size
  map_stack ctx out

-- The end of `create_user_task`: where anything failed the address space is given up.
abbrev pub start_task :
    Kernel → (ctx launcher entry_offset name : ℕ) → Memory → Bool × Vmm → ℕ × Kernel × Vmm
start_task k ctx launcher entry_offset name m (false, v) = (0, k, vmm_destroy_context v ctx)
start_task k ctx launcher entry_offset name m (true, v) =
    let (task, k1) = task_create_internal k (launch_entry v ctx launcher entry_offset name) m in
    (task, k1, if task == 0 then vmm_destroy_context v ctx else v)

-- `context` is what kmalloc returns for the address space; the answer is the task, 0 on failure.
unfoldable pub create_user_task :
    Kernel
    → Vmm
    → (image : Option (ℕ → ℕ)) → (image_size entry_offset name launcher context : ℕ) → Memory
    → Option (ℕ × Kernel × Vmm)
unfolding map_image
create_user_task k v none image_size entry_offset name launcher context m = some (0, k, v)
create_user_task k v (some image) image_size entry_offset name launcher context m =
    let (ctx, v1) = vmm_create_context v context in
    if (image_size == 0) || leb image_size entry_offset
    then some (0, k, v)
    else if ctx == 0
    then some (0, k, v1)
    else do
      out ← map_image v1 ctx image image_size
      some (start_task k ctx launcher entry_offset name m out)

-- What the code of the kernel is at: the functions of the first two tasks, and the three names.
pub record Image : Type 0 where
  pub init_shell : ℕ
  pub reap_all_tasks : ℕ
  pub boot_name : ℕ
  pub shell_name : ℕ
  pub reaper_name : ℕ

-- The task that boots, with the stack that it is on; the other fields are zeroed.
abbrev pub boot_task : Vmm → (name boot_rsp : ℕ) → Task
boot_task v name boot_rsp = record zero_task {
  name = name;
  state = TaskState.running;
  vmm_ctx = v.kernel_ctx;
  rsp0 = boot_rsp;
  cr3 = v.contexts v.kernel_ctx;
}

-- The memory of `init_multitasking`: the pid table, the first TCB and whether the table grows for
-- it, and what the two tasks get.
pub record BootMemory : Type 0 where
  pub got_table : Bool
  pub got_slots : Bool
  pub t0 : ℕ
  pub grows : Bool
  pub shell : Memory
  pub reaper : Memory

-- `init_multitasking` up to its last loop, which yields for good.
unfoldable pub init_multitasking : Kernel → Vmm → Image → (boot_rsp : ℕ) → BootMemory → Kernel
unfolding create_kernel_task
init_multitasking k v image boot_rsp m =
    let k1 = pid_table_init k m.got_table m.got_slots in
    let k2 = record k1 {
      tcb = update k1.tcb m.t0 (λ t. boot_task v image.boot_name boot_rsp);
      t0 = m.t0;
      current_task = m.t0;
      last_time_check = 0;
    } in
    let (_, k3) = pid_table_insert (update_task_time k2) m.t0 m.grows in
    let (shell, k4) = create_kernel_task k3 v image.init_shell image.shell_name m.shell in
    let (reaper, k5) =
      create_kernel_task (record k4 { shell_task = shell }) v image.reap_all_tasks image.reaper_name
        m.reaper in
    record k5 { terminator_task = reaper }

-- What each new task runs first.
pub kernel_task_startup : Kernel → Kernel
kernel_task_startup k = unlock_schedule k

-- Up to the loop behind it, which is not reached.
pub task_exit : (Kernel → Kernel) → Kernel → Kernel
task_exit idle k = terminate_task idle k
