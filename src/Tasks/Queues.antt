-- ===== src/Tasks/Queues.antt =====
-- The queues of kernel/multitasking/task.c: the ready queue, the sleeping queue in the order of the
-- wake times, and the waiters of a semaphore.
use toast_os.Prelude.{ℕ, ◌==◌, if◌then◌else◌}
use toast_os.Tasks.State.{Kernel, with_task, with_sem}
use toast_os.Tasks.Links.{Links, push, pop, remove, insert}

abbrev pub ready_links : Kernel → Links
ready_links k = record { tcb = k.tcb; first = k.first_ready; last = k.last_ready }

abbrev pub put_ready : Kernel → Links → Kernel
put_ready k l = record k { tcb = l.tcb; first_ready = l.first; last_ready = l.last }

unfoldable pub ready_push : Kernel → ℕ → Kernel
ready_push k task = put_ready k (push (ready_links k) task)

unfoldable pub ready_pop : Kernel → ℕ × Kernel
ready_pop k = let (task, l) = pop (ready_links k) in (task, put_ready k l)

unfoldable pub ready_remove : ℕ → Kernel → ℕ → Kernel
ready_remove bound k task = put_ready k (remove bound (ready_links k) task).1

abbrev pub sleep_links : Kernel → Links
sleep_links k = record { tcb = k.tcb; first = k.first_sleeping; last = k.last_sleeping }

abbrev pub put_sleep : Kernel → Links → Kernel
put_sleep k l = record k { tcb = l.tcb; first_sleeping = l.first; last_sleeping = l.last }

unfoldable pub sleep_push : ℕ → Kernel → ℕ → Kernel
sleep_push bound k task = put_sleep k (insert bound (sleep_links k) task)

unfoldable pub sleep_pop : Kernel → ℕ × Kernel
sleep_pop k = let (task, l) = pop (sleep_links k) in (task, put_sleep k l)

unfoldable pub sleep_remove : ℕ → Kernel → ℕ → Kernel
sleep_remove bound k task = put_sleep k (remove bound (sleep_links k) task).1

abbrev pub sem_links : Kernel → ℕ → Links
sem_links k s = record {
  tcb = k.tcb;
  first = (k.sem s).first_waiting_task;
  last = (k.sem s).last_waiting_task;
}

abbrev pub put_sem : Kernel → ℕ → Links → Kernel
put_sem k s l =
    with_sem (record k { tcb = l.tcb }) s
      (λ m. record m { first_waiting_task = l.first; last_waiting_task = l.last })

-- `task->waiting_for = s`
abbrev pub wait_for : Kernel → ℕ → ℕ → Kernel
wait_for k task s = with_task k task (λ t. record t { waiting_for = s })

unfoldable pub sem_push : Kernel → ℕ → ℕ → Kernel
sem_push k s task = let k1 = wait_for k task s in put_sem k1 s (push (sem_links k1 s) task)

unfoldable pub sem_pop : Kernel → ℕ → ℕ × Kernel
sem_pop k s =
    let (task, l) = pop (sem_links k s) in
    (task, if task == 0 then k else wait_for (put_sem k s l) task 0)

unfoldable pub sem_remove : ℕ → Kernel → ℕ → ℕ → Kernel
sem_remove bound k s task =
    let (found, l) = remove bound (sem_links k s) task in
    if found then wait_for (put_sem k s l) task 0 else k
