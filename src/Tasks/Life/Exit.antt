-- ===== src/Tasks/Life/Exit.antt =====
-- The end of the running task, terminate_task of kernel/multitasking/task.c.
use toast_os.Prelude.{
  ℕ, ◌+◌, ◌≡◌, ◌≢◌, refl, ◌∙◌, ap, sym, true, false, List, ◌∷◌, ◌==◌, ◌&&◌, if◌then◌else◌, arith,
  u32, sub32,
}
use toast_os.Irq
use toast_os.Irq.{Irq}
use toast_os.Tasks.State.{Kernel, running, dead, state_of, next_of, put_next, update}
use toast_os.Tasks.Links.Chain.{mem, Holds, Chain-frame}
use toast_os.Tasks.Queues.{ready_links}
use toast_os.Tasks.Sched.{
  lock_schedule, unlock_schedule, lock_stuff, unlock_stuff, block_task, schedule,
}
use toast_os.Tasks.Sched.Laws.{requeued}
use toast_os.Tasks.Sched.Turns.{Runs, schedule_turn, schedule_postponed}
use toast_os.Tasks.Life.{is_paused, wake_reaper, terminate_task}
use toast_os.Tasks.Life.Kill.{wake_reaper-busy}

-- From `k` to `k'` the running task came to its end: it is the first of the dead, ahead of those that
-- were, and `x` runs, with `xs` on the ready queue.
pub record Terminated (k : Kernel) (x : ℕ) (xs : List ℕ) (k' : Kernel) : Type 0 where
  pub current : k'.current_task ≡ x
  pub ready_queue : Holds (ready_links k') xs
  pub states :
      (a : ℕ)
      → state_of k' a
        ≡ (if a == x then running else if a == k.current_task then dead else state_of k a)
  pub first_dead : k'.terminated_list ≡ k.current_task
  pub next_dead : next_of k' k.current_task ≡ k.terminated_list
  pub irq : k'.irq ≡ k.irq

-- The kernel with the running task among the dead.
abbrev condemned : Kernel → Irq → ℕ → Kernel
condemned k i n = record k {
  tcb =
      update (put_next k.tcb k.current_task k.terminated_list) k.current_task
        (λ t. record t { state = dead });
  terminated_list = k.current_task;
  irq = i;
  postpone_counter = n;
  postponed_flag = false;
}

module _ (idle : Kernel → Kernel) (k : Kernel) (irq0 : Irq.IsValid k.irq)
    (now0 : k.postpone_counter ≡ 0) (busy : is_paused (state_of k k.terminator_task) ≡ false) where
  blocked_at : Kernel
  blocked_at = record (condemned k (Irq.lock_schedule k.irq) (u32 (k.postpone_counter + 1))) {
    postponed_flag = true;
  }

  terminate-blocked : terminate_task idle k ≡ unlock_stuff idle (wake_reaper blocked_at)
  unfolding terminate_task lock_stuff lock_schedule unlock_schedule block_task blocked_at
  terminate-blocked =
      let inner = Irq.unlock_schedule-lock_schedule_inner irq0 in
      let i1 = Irq.unlock_schedule (Irq.lock_schedule (Irq.lock_schedule k.irq)) in
      let later : u32 (k.postpone_counter + 1) ≢ 0 = λ z. omega arith in
      let before : Kernel =
        record (condemned k (Irq.lock_schedule i1) (u32 (k.postpone_counter + 1))) {
          postponed_flag = k.postponed_flag;
        } in
      let held = (schedule_postponed idle before 0 later).0 in
      ap (λ z. unlock_stuff idle (wake_reaper (unlock_schedule z))) held
      ∙ ap
          (λ i. unlock_stuff idle (
            wake_reaper
              (record (condemned k i (u32 (k.postpone_counter + 1))) { postponed_flag = true })))
          (ap (λ i. Irq.unlock_schedule (Irq.lock_schedule i)) inner ∙ inner)

  still_busy : is_paused (state_of blocked_at blocked_at.terminator_task) ≡ false
  unfolding blocked_at
  still_busy = ground (arith, busy)

  terminate-schedule :
      terminate_task idle k
      ≡ unlock_schedule (schedule idle (condemned k (Irq.lock_schedule k.irq) 0))
  unfolding unlock_stuff blocked_at
  terminate-schedule =
      let zero' : sub32 (u32 (k.postpone_counter + 1)) 1 ≡ 0 = omega arith in
      let due : ((sub32 (u32 (k.postpone_counter + 1)) 1 == 0) && true) ≡ true = ground arith in
      terminate-blocked
      ∙ ap (unlock_stuff idle) (wake_reaper-busy blocked_at still_busy)
      ∙ rw due (
          ap (λ n. unlock_schedule (schedule idle (condemned k (Irq.lock_schedule k.irq) n))) zero')

-- While a task runs with the locks open, others are ready and the reaper is at work, terminate_task
-- gives the processor to the first of them.
pub terminate_task-Terminated :
    (idle : Kernel → Kernel) (k : Kernel) (x : ℕ) (xs : List ℕ)
    → Runs k (x ∷ xs)
    → is_paused (state_of k k.terminator_task) ≡ false
    → Terminated k x xs (terminate_task idle k)
unfolding unlock_schedule
terminate_task-Terminated idle k x xs r busy =
    let c = condemned k (Irq.lock_schedule k.irq) 0 in
    let next : (a : ℕ) → mem a (x ∷ xs) ≡ true → (c.tcb a).next ≡ (k.tcb a).next =
      λ a i. ground (arith, i, r.apart) in
    let queue : Holds (ready_links c) (x ∷ xs) = record {
      chain = Chain-frame k.tcb c.tcb k.first_ready (x ∷ xs) r.queue.chain next;
      ends = r.queue.ends;
    } in
    let s = schedule_turn idle c x xs queue refl r.some r.apart in
    let stopped : requeued c xs ≡ xs = ground arith in
    let k' = schedule idle c in
    let apart : (k.current_task == x) ≡ false = ground (arith, r.apart) in
    let link : next_of k' k.current_task ≡ k.terminated_list =
      s.nexts k.current_task (ground (arith, r.apart)) ∙ ground arith in
    rw (terminate-schedule idle k r.irq r.now busy) (record {
      current = s.current;
      ready_queue = rw (sym stopped) s.queue;
      states = λ a. s.states a ∙ ground arith;
      first_dead = ap (λ (z : Kernel). z.terminated_list) s.others;
      next_dead = link;
      irq =
          ap (λ (z : Kernel). Irq.unlock_schedule z.irq) s.others
          ∙ Irq.unlock_schedule-lock_schedule r.irq;
    })
