-- ===== src/Tasks/State.antt =====
-- The data of kernel/multitasking/task.h and the static variables of task.c and pidTable.c.
--
-- A pointer is a number and NULL is 0. The TCBs and the semaphores are stores by address: the queues
-- are threaded through the `next` field of the TCBs, so one store is shared by all of them.
use toast_os.Prelude.{ℕ, Bool, Option, List, ◌==◌, if◌then◌else◌}
use toast_os.Prelude.Int.{ℤ}
use toast_os.Irq.{Irq}
use toast_os.Timer.{Timer}
use toast_os.TaskTable.{Table}

pub data TaskState : Type 0 where
  ready running blocked waiting_for_lock paused sleeping dead : TaskState

-- `task_t`
pub record Task : Type 0 where
  pub name : ℕ
  pub pid : ℕ
  pub rsp : ℕ
  pub rsp0 : ℕ
  pub cr3 : ℕ
  pub state : TaskState
  pub next : ℕ
  pub time_elapsed : ℕ
  pub wake_time : ℕ
  pub waiting_for : ℕ
  pub kstack_base : ℕ
  pub vmm_ctx : ℕ
  pub is_user : Bool

pub record Semaphore : Type 0 where
  pub max_count : ℤ
  pub current_count : ℤ
  pub first_waiting_task : ℕ
  pub last_waiting_task : ℕ

pub record Kernel : Type 0 where
  pub tcb : ℕ → Task
  pub sem : ℕ → Semaphore
  pub current_task : ℕ
  pub t0 : ℕ
  pub shell_task : ℕ
  pub terminator_task : ℕ
  pub first_ready : ℕ
  pub last_ready : ℕ
  pub first_sleeping : ℕ
  pub last_sleeping : ℕ
  pub terminated_list : ℕ
  pub irq : Irq
  -- `postpone_task_switches_counter`, as the 32-bit pattern of the `int`
  pub postpone_counter : ℕ
  pub postponed_flag : Bool
  pub cpu_idle_time : ℕ
  pub last_time_check : ℕ
  pub time_slice_remaining : ℕ
  pub timer : Timer
  -- `g_pid_table`, the stack of free pids with their nodes, `next_greatest_pid`
  pub pid_table : Option Table
  pub free_pid_list : List (ℕ × ℕ)
  pub next_greatest_pid : ℕ
  -- What `context_switch` loads: `TSS.rsp0` (and `syscall_kernel_rsp`), and `cr3`.
  pub tss_rsp0 : ℕ
  pub loaded_cr3 : ℕ
  -- The calls of `kfree` and of `vmm_destroy_context`, latest first.
  pub freed : List ℕ
  pub destroyed : List ℕ

-- `task->field = v` on the store of TCBs, and on the kernel; `sem->field = v`.
abbrev pub update : (ℕ → Task) → ℕ → (Task → Task) → ℕ → Task
update tcb p f q = if q == p then f (tcb q) else tcb q

abbrev pub put_next : (ℕ → Task) → ℕ → ℕ → ℕ → Task
put_next tcb p v = update tcb p (λ t. record t { next = v })

abbrev pub with_task : Kernel → ℕ → (Task → Task) → Kernel
with_task k p f = record k { tcb = update k.tcb p f }

abbrev pub set_state : Kernel → ℕ → TaskState → Kernel
set_state k p s = with_task k p (λ t. record t { state = s })

abbrev pub with_sem : Kernel → ℕ → (Semaphore → Semaphore) → Kernel
with_sem k s f = record k { sem = λ q. if q == s then f (k.sem q) else k.sem q }

abbrev pub next_of : Kernel → ℕ → ℕ
next_of k p = (k.tcb p).next

abbrev pub state_of : Kernel → ℕ → TaskState
state_of k p = (k.tcb p).state

abbrev pub wake_of : Kernel → ℕ → ℕ
wake_of k p = (k.tcb p).wake_time

-- A fresh TCB, as `memset` leaves it.
abbrev pub zero_task : Task
zero_task = record {
  name = 0;
  pid = 0;
  rsp = 0;
  rsp0 = 0;
  cr3 = 0;
  state = ready;
  next = 0;
  time_elapsed = 0;
  wake_time = 0;
  waiting_for = 0;
  kstack_base = 0;
  vmm_ctx = 0;
  is_user = Bool.false;
}
