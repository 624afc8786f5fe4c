-- ===== src/Tasks/Sched.antt =====
-- The scheduler of kernel/multitasking/task.c: switching, the two locks, sleeping, the timer tick,
-- and blocking and waking tasks.
--
-- `context_switch` saves the stack of the running task and goes on on the stack of the next one. Each
-- place where a task can resume then does what the model goes on with: the caller of `schedule`
-- leaves its one remaining critical section (`unlock_schedule`, the end of `unlock_stuff`, and
-- `kernel_task_startup` for a task that has never run all count `IRQ_disable_counter` down once), and
-- the code between is over the kernel's shared variables. So a function of the model is the
-- sequence of changes to these variables from its call to the end of that critical section.
--
-- When no task can run, `schedule` halts with interrupts on until an interrupt handler makes one
-- ready. Which interrupts come is the environment's choice: `idle` is the state in which that loop is
-- left. `bound` is the number of rounds for a walk over a queue.
use toast_os.Prelude.{
  ℕ, zero, suc, ◌+◌, ◌-◌, ◌*◌, ◌≤◌, Bool, true, false, ltb, leb, ◌==◌, if◌then◌else◌, u64, u32,
  sub64, sub32, not, ◌&&◌,
}
use toast_os.Irq
use toast_os.Irq.{Irq}
use toast_os.Timer.{get_uptime_ns, get_ns_per_tick, count_tick}
use toast_os.Tasks.State.{
  TaskState, ready, running, sleeping, Task, Kernel, with_task, set_state, state_of, wake_of,
}
use toast_os.Tasks.Queues.{ready_push, ready_pop, sleep_push, sleep_pop}
pub mod Laws
pub mod Turns
pub mod Wake

abbrev pub time_slice_in_ns : ℕ
time_slice_in_ns = 50000000

unfoldable pub lock_schedule : Kernel → Kernel
lock_schedule k = record k { irq = Irq.lock_schedule k.irq }

unfoldable pub unlock_schedule : Kernel → Kernel
unlock_schedule k = record k { irq = Irq.unlock_schedule k.irq }

unfoldable pub lock_stuff : Kernel → Kernel
lock_stuff k = record k {
  irq = Irq.lock_schedule k.irq;
  postpone_counter = u32 (k.postpone_counter + 1);
}

unfoldable pub update_task_time : Kernel → Kernel
update_task_time k =
    let now = get_uptime_ns k.timer in
    let elapsed = sub64 now k.last_time_check in
    let idle = k.current_task == 0 in
    record k {
      last_time_check = now;
      cpu_idle_time = if idle then u64 (k.cpu_idle_time + elapsed) else k.cpu_idle_time;
      tcb =
          if idle
          then k.tcb
          else (with_task k k.current_task
              (λ t. record t { time_elapsed = u64 (t.time_elapsed + elapsed) })).tcb;
    }

-- ctx_switch.s
unfoldable pub context_switch : Kernel → ℕ → Kernel
unfolding update_task_time
context_switch k next_task =
    let k1 = update_task_time k in
    record k1 {
      current_task = next_task;
      tss_rsp0 = (k1.tcb next_task).rsp0;
      loaded_cr3 = (k1.tcb next_task).cr3;
    }

abbrev pub is_running : TaskState → Bool
is_running running = true
is_running _ = false

-- A running task goes back to the ready queue.
unfoldable pub requeue : Kernel → ℕ → Kernel
requeue k prev_task =
    if is_running (state_of k prev_task)
    then ready_push (set_state k prev_task ready) prev_task
    else k

unfoldable pub dispatch : Kernel → ℕ → Kernel
dispatch k next_task =
    context_switch
      (record (set_state k next_task running) { time_slice_remaining = time_slice_in_ns }) next_task

unfoldable pub switch_to_task : Kernel → ℕ → Kernel
switch_to_task k next_task =
    if not (k.postpone_counter == 0)
    then record k { postponed_flag = true }
    else dispatch (requeue k k.current_task) next_task

unfoldable pub unblock_task : Kernel → ℕ → Kernel
unblock_task k task = unlock_schedule (ready_push (set_state (lock_schedule k) task ready) task)

-- `while (first_sleeping_task != NULL && first_sleeping_task->wake_time <= now)`
unfoldable pub wake_sleepers : ℕ → ℕ → Kernel → Kernel
wake_sleepers zero now k = k
wake_sleepers (suc bound) now k =
    let (task, k1) = sleep_pop k in
    let rest = wake_sleepers bound now (unblock_task k1 task) in
    if not (k.first_sleeping == 0) && leb (wake_of k k.first_sleeping) now then rest else k

module _ (idle : Kernel → Kernel) where
  -- The end of `schedule` for a task that cannot run on, when no task is ready.
  unfoldable pub wait_for_task : Kernel → Kernel
  wait_for_task k =
      let k1 = record (idle (record k { current_task = 0 })) { current_task = k.current_task } in
      let (task, k2) = ready_pop k1 in
      if not (task == k2.current_task)
      then switch_to_task k2 task
      else record (set_state k2 task running) { time_slice_remaining = time_slice_in_ns }

  unfoldable pub schedule : Kernel → Kernel
  schedule k =
      let (task, k1) = ready_pop k in
      if not (k.postpone_counter == 0)
      then record k { postponed_flag = true }
      else if not (k.first_ready == 0)
      then switch_to_task k1 task
      else if is_running (state_of k k.current_task)
      then k
      else wait_for_task k

  unfoldable pub unlock_stuff : Kernel → Kernel
  unlock_stuff k =
      let k1 = record k { postpone_counter = sub32 k.postpone_counter 1 } in
      let k2 =
        if (k1.postpone_counter == 0) && k1.postponed_flag
        then schedule (record k1 { postponed_flag = false })
        else k1 in
      unlock_schedule k2

  unfoldable pub yield_cpu : Kernel → Kernel
  yield_cpu k = unlock_schedule (schedule (lock_schedule k))

  unfoldable pub block_task : Kernel → TaskState → Kernel
  block_task k reason =
      let k1 = lock_schedule k in unlock_schedule (schedule (set_state k1 k1.current_task reason))

  unfoldable pub nano_sleep_until : ℕ → Kernel → ℕ → Kernel
  nano_sleep_until bound k wake_time_ns =
      let k1 = lock_stuff k in
      let task = k1.current_task in
      let k2 = with_task k1 task (λ t. record t { wake_time = wake_time_ns }) in
      if leb wake_time_ns (get_uptime_ns k1.timer)
      then unlock_stuff k1
      else unlock_stuff (block_task (sleep_push bound k2 task) sleeping)

  unfoldable pub nano_sleep : ℕ → Kernel → ℕ → Kernel
  nano_sleep bound k nanoseconds =
      nano_sleep_until bound k (u64 (get_uptime_ns k.timer + nanoseconds))

  unfoldable pub sleep_seconds : ℕ → Kernel → ℕ → Kernel
  sleep_seconds bound k seconds = nano_sleep bound k (u64 (seconds * 1000000000))

  unfoldable pub timer_check_sleeping_tasks : ℕ → Kernel → Kernel
  timer_check_sleeping_tasks bound k =
      let k1 = lock_stuff k in unlock_stuff (wake_sleepers bound (get_uptime_ns k1.timer) k1)

  unfoldable pub scheduler_time_slice_tick : Kernel → Kernel
  scheduler_time_slice_tick k =
      let k1 = lock_stuff k in
      let elapsed = get_ns_per_tick k1.timer in
      let left = sub64 k1.time_slice_remaining elapsed in
      let k2 =
        if k1.current_task == 0
        then k1
        else if leb k1.time_slice_remaining elapsed
        then (if not (k1.first_ready == 0)
            then schedule k1
            else record k1 { time_slice_remaining = time_slice_in_ns })
        else record k1 { time_slice_remaining = left } in
      unlock_stuff k2

  -- The part of the timer interrupt's handler that the scheduler sees; the cursor of the console
  -- blinks after it.
  unfoldable pub timer_handler : ℕ → Kernel → Kernel
  timer_handler bound k =
      scheduler_time_slice_tick
        (timer_check_sleeping_tasks bound (record k { timer = count_tick k.timer }))

-- `do { sti; hlt; cli; } while (first_ready_task == NULL)`, when the interrupts are those of the
-- timer: at most `fuel` of them. An interrupt that comes while the processor is idle cannot reach
-- the idle loop again, since no task is running.
unfoldable pub idle_by_timer : (fuel bound : ℕ) → Kernel → Kernel
idle_by_timer zero bound k = k
idle_by_timer (suc fuel) bound k =
    let k1 = timer_handler (λ k'. k') bound k in
    let rest = idle_by_timer fuel bound k1 in if k1.first_ready == 0 then rest else k1
