-- ===== src/Tasks/Links.antt =====
-- The singly linked queues of kernel/multitasking/task.c, threaded through the `next` fields: the
-- ready queue, the sleeping queue and the waiters of a semaphore are three copies of this code, each
-- over its own pair of `first` and `last` pointers. `Tasks.Queues` has the three.
--
-- A walk over a queue has `bound` rounds; one that runs out of them stops as at the end of the list.
pub mod Chain
pub mod Laws
pub mod Order
pub mod Place
use toast_os.Prelude.{
  ℕ, zero, suc, Bool, true, false, ltb, leb, ◌==◌, if◌then◌else◌, not, ◌&&◌, ◌||◌,
}
use toast_os.Tasks.State.{Task, update, put_next}

pub record Links : Type 0 where
  pub tcb : ℕ → Task
  pub first : ℕ
  pub last : ℕ

-- `ready_push`, `sem_push`: at the end.
unfoldable pub push : Links → ℕ → Links
push l task =
    let tcb1 = put_next l.tcb task 0 in
    let empty = l.last == 0 in
    record {
      tcb = if empty then tcb1 else put_next tcb1 l.last task;
      first = if empty then task else l.first;
      last = task;
    }

-- `ready_pop`, `sleep_pop`, `sem_pop`: the first task, 0 if there is none.
unfoldable pub pop : Links → ℕ × Links
pop l =
    let task = l.first in
    let first = (l.tcb task).next in
    if task == 0 then (0, l) else (
      task,
      record {
        tcb = put_next l.tcb task 0;
        first = first;
        last = if first == 0 then 0 else l.last;
      },
    )

-- `while (tracker && tracker->next != task) tracker = tracker->next;`
unfoldable pub find_before : (ℕ → Task) → ℕ → ℕ → ℕ → ℕ
find_before tcb zero tracker task = 0
find_before tcb (suc bound) tracker task =
    let rest = find_before tcb bound (tcb tracker).next task in
    if tracker == 0 then 0 else if (tcb tracker).next == task then tracker else rest

-- `ready_remove`, `sleep_remove`, `sem_remove`. The flag says whether the task was found.
unfoldable pub remove : ℕ → Links → ℕ → Bool × Links
remove bound l task =
    let tracker = find_before l.tcb bound l.first task in
    if task == l.first then (not (task == 0), (pop l).1) else if tracker == 0 then (false, l) else (
      true,
      record {
        tcb = put_next (put_next l.tcb tracker (l.tcb task).next) task 0;
        first = l.first;
        last = if task == l.last then tracker else l.last;
      },
    )

-- `while (tracker->next && tracker->next->wake_time <= task->wake_time) tracker = tracker->next;`
unfoldable pub find_slot : (ℕ → Task) → ℕ → ℕ → ℕ → ℕ
find_slot tcb zero tracker time = tracker
find_slot tcb (suc bound) tracker time =
    let next = (tcb tracker).next in
    let rest = find_slot tcb bound next time in
    if not (next == 0) && leb (tcb next).wake_time time then rest else tracker

-- `sleep_push`: behind all that wake no later.
unfoldable pub insert : ℕ → Links → ℕ → Links
insert bound l task =
    let tcb1 = put_next l.tcb task 0 in
    let time = (l.tcb task).wake_time in
    let front = (l.first == 0) || ltb time (tcb1 l.first).wake_time in
    let tracker = find_slot tcb1 bound l.first time in
    let after = (tcb1 tracker).next in
    if front
    then record {
      tcb = put_next tcb1 task l.first;
      first = task;
      last = if l.last == 0 then task else l.last;
    }
    else record {
      tcb = put_next (put_next tcb1 task after) tracker task;
      first = l.first;
      last = if after == 0 then task else l.last;
    }
