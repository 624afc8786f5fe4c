-- ===== src/Tasks/Sync.antt =====
-- The semaphores and mutexes of kernel/multitasking/task.c.
pub mod Laws
use toast_os.Prelude.{ℕ, Bool, ◌==◌, if◌then◌else◌, not}
use toast_os.Prelude.Int.{ℤ, pos, ltb_ℤ, incr, decr}
use toast_os.Tasks.State.{TaskState, waiting_for_lock, Semaphore, Kernel, with_sem}
use toast_os.Tasks.Queues.{sem_push, sem_pop}
use toast_os.Tasks.Sched.{lock_stuff, unlock_stuff, block_task, unblock_task}

abbrev pub new_semaphore : ℤ → Semaphore
new_semaphore max = record {
  max_count = max;
  current_count = pos 0;
  first_waiting_task = 0;
  last_waiting_task = 0;
}

-- `address` is what `kmalloc` returns.
unfoldable pub create_semaphore : Kernel → (address : ℕ) → ℤ → ℕ × Kernel
create_semaphore k address max =
    (address, if not (address == 0) then with_sem k address (λ _. new_semaphore max) else k)

unfoldable pub create_mutex : Kernel → (address : ℕ) → ℕ × Kernel
create_mutex k address = create_semaphore k address (pos 1)

module _ (idle : Kernel → Kernel) where
  unfoldable pub acquire_semaphore : Kernel → ℕ → Kernel
  acquire_semaphore k s =
      let k1 = lock_stuff k in
      let m = k1.sem s in
      unlock_stuff idle (
        if ltb_ℤ m.current_count m.max_count
        then with_sem k1 s (λ m. record m { current_count = incr m.current_count })
        else block_task idle (sem_push k1 s k1.current_task) waiting_for_lock)

  unfoldable pub acquire_mutex : Kernel → ℕ → Kernel
  acquire_mutex k s = acquire_semaphore k s

  unfoldable pub release_semaphore : Kernel → ℕ → Kernel
  release_semaphore k s =
      let k1 = lock_stuff k in
      let (task, k2) = sem_pop k1 s in
      unlock_stuff idle (
        if not ((k1.sem s).first_waiting_task == 0)
        then unblock_task k2 task
        else with_sem k1 s (λ m. record m { current_count = decr m.current_count }))

  unfoldable pub release_mutex : Kernel → ℕ → Kernel
  release_mutex k s = release_semaphore k s
