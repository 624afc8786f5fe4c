-- ===== src/Tasks/Sched/Turns.antt =====
-- The turns that tasks take on the processor: `schedule` and `yield` of kernel/multitasking/task.c.
use toast_os.Prelude.{
  ℕ, ◌≡◌, ◌≢◌, refl, ◌∙◌, ap, sym, true, false, List, [], ◌∷◌, ◌++◌, ◌==◌, if◌then◌else◌, arith,
  not, Bool-cases, inl, inr, zero, suc, length, append_assoc,
}
use toast_os.Irq
use toast_os.Tasks.State.{Task, Kernel, running, state_of}
use toast_os.Tasks.Links.Chain.{mem, Holds, Spares, state-spared, wake-spared, mem-append}
use toast_os.Tasks.Links.Laws.{pop-cons}
use toast_os.Tasks.Queues.{ready_links, ready_pop}
use toast_os.Tasks.Sched.{
  is_running, lock_schedule, unlock_schedule, schedule, switch_to_task, yield_cpu,
}
use toast_os.Tasks.Sched.Laws.{rest, fixed, Switched, requeued, switch_lem}

rest-ready_pop : (k : Kernel) → rest (ready_pop k).1 ≡ rest k
unfolding ready_pop
rest-ready_pop k = refl

counter-ready_pop : (k : Kernel) → (ready_pop k).1.postpone_counter ≡ k.postpone_counter
unfolding ready_pop
counter-ready_pop k = refl

current-ready_pop : (k : Kernel) → (ready_pop k).1.current_task ≡ k.current_task
unfolding ready_pop
current-ready_pop k = refl

ready_pop-cons :
    (k : Kernel) (x : ℕ) (xs : List ℕ)
    → Holds (ready_links k) (x ∷ xs)
    → ((ready_pop k).0 ≡ x)
      × Holds (ready_links (ready_pop k).1) xs
      × Spares (x ∷ []) k.tcb (ready_pop k).1.tcb
unfolding ready_pop
ready_pop-cons k x xs h = let (e, rests, spares, _) = pop-cons x xs h in (e, rests, spares)

module _ (idle : Kernel → Kernel) (k : Kernel) (x : ℕ) (xs : List ℕ)
    (h : Holds (ready_links k) (x ∷ xs)) (now : k.postpone_counter ≡ 0) (c0 : k.current_task ≢ 0)
    (off : mem k.current_task (x ∷ xs) ≡ false) where
  schedule-pop : schedule idle k ≡ switch_to_task (ready_pop k).1 x
  unfolding schedule
  schedule-pop =
      let on : not (k.postpone_counter == 0) ≡ false = ground arith in
      let some : not (k.first_ready == 0) ≡ true = ground (arith, h.chain) in
      let (e, _, _) = ready_pop-cons k x xs h in
      rw (on, some) (ap (switch_to_task (ready_pop k).1) e)

  -- With the first of the ready tasks gone from the queue, the switch to it.
  pub schedule_turn : Switched k (x ∷ xs) x (requeued k xs) (schedule idle k)
  unfolding ready_pop
  schedule_turn =
      let (e, h1, spares) = ready_pop-cons k x xs h in
      let k1 = (ready_pop k).1 in
      let cur = current-ready_pop k in
      let state = state-spared spares in
      let c1 : k1.current_task ≢ 0 = λ z. c0 (sym cur ∙ z) in
      let off1 : mem k1.current_task xs ≡ false = ap (λ z. mem z xs) cur ∙ ground arith in
      let s = switch_lem k1 xs h1 c1 off1 x (counter-ready_pop k ∙ now) in
      let q : requeued k1 xs ≡ requeued k xs =
        ap (λ z. if is_running z then xs ++ k.current_task ∷ [] else xs) (state k.current_task) in
      rw schedule-pop (record {
        current = s.current;
        queue = rw (sym q) s.queue;
        states = λ a. s.states a ∙ ground (arith, state a);
        slice = s.slice;
        stack = s.stack ∙ ap (λ (t : Task). t.rsp0) (spares.others x);
        space = s.space ∙ ap (λ (t : Task). t.cr3) (spares.others x);
        nexts = λ a out.
            let on' : is_running (state_of k1 k1.current_task)
                ≡ is_running (state_of k k.current_task) =
              ap is_running (state k.current_task) in
            elim (Bool-cases (is_running (state_of k k.current_task))) [
              | inl run ↦
                  s.nexts a (rw (on', run) (ground (arith, out, run)))
                  ∙ spares.nexts a (ground (arith, out, run))
              | inr stop ↦
                  s.nexts a (rw (on', stop) (ground (arith, out, stop)))
                  ∙ spares.nexts a (ground (arith, out, stop))
            ];
        wakes = λ a. s.wakes a ∙ wake-spared spares a;
        tasks = λ a. s.tasks a ∙ ap fixed (spares.others a);
        others = s.others ∙ rest-ready_pop k;
      })

-- A task runs, with interrupts and switches enabled as the locks say, and `xs` wait for their turn.
pub record Runs (k : Kernel) (xs : List ℕ) : Type 0 where
  pub queue : Holds (ready_links k) xs
  pub irq : Irq.IsValid k.irq
  pub now : k.postpone_counter ≡ 0
  pub some : k.current_task ≢ 0
  pub apart : mem k.current_task xs ≡ false
  pub runs : state_of k k.current_task ≡ running

-- When a task is running with the locks open and others are ready, yield gives the processor to
-- the first of them and puts the running task behind the last. The two change their states; of the
-- TCBs nothing else changes but the clocks and the links of those that wait or ran, and of the
-- other variables nothing but the ends of the ready queue, the clocks, the time slice and what the
-- processor loads, which are the stack and the page tables of the task that now runs; the
-- interrupt lock is as before.
pub yield_cpu_turn :
    (idle : Kernel → Kernel) (k : Kernel) (x : ℕ) (xs : List ℕ)
    → Runs k (x ∷ xs)
    → Switched k (x ∷ xs) x (xs ++ k.current_task ∷ []) (yield_cpu idle k)
unfolding yield_cpu lock_schedule unlock_schedule
yield_cpu_turn idle k x xs r =
    let s = schedule_turn idle (lock_schedule k) x xs r.queue r.now r.some r.apart in
    let q : requeued k xs ≡ xs ++ k.current_task ∷ [] =
      ap (λ z. if is_running z then xs ++ k.current_task ∷ [] else xs) r.runs in
    record {
      current = s.current;
      queue = rw (sym q) s.queue;
      states = s.states;
      slice = s.slice;
      stack = s.stack;
      space = s.space;
      nexts = s.nexts;
      wakes = s.wakes;
      tasks = s.tasks;
      others =
          ap (λ (z : Kernel). record z { irq = Irq.unlock_schedule z.irq }) s.others
          ∙ ap (λ i. record (rest k) { irq = i }) (Irq.unlock_schedule-lock_schedule r.irq);
    }

mem-snoc : (a c : ℕ) (xs : List ℕ) → mem a xs ≡ false → a ≢ c → mem a (xs ++ c ∷ []) ≡ false
mem-snoc a c xs out ne = ground (arith, mem-append a xs (c ∷ []))

Runs-yield_cpu :
    (idle : Kernel → Kernel) (k : Kernel) (x : ℕ) (xs : List ℕ)
    → Runs k (x ∷ xs)
    → Runs (yield_cpu idle k) (xs ++ k.current_task ∷ [])
Runs-yield_cpu idle k x xs r =
    let s = yield_cpu_turn idle k x xs r in
    let k' = yield_cpu idle k in
    let (_, ne, out, _) = r.queue.chain in
    let still : mem x (xs ++ k.current_task ∷ []) ≡ false =
      mem-snoc x k.current_task xs out (λ e. ground (arith, r.apart)) in
    record {
      queue = s.queue;
      irq = rw (ap (λ (z : Kernel). z.irq) s.others) r.irq;
      now = ap (λ (z : Kernel). z.postpone_counter) s.others ∙ r.now;
      some = λ z. ne (sym s.current ∙ z);
      apart = ap (λ z. mem z (xs ++ k.current_task ∷ [])) s.current ∙ still;
      runs = s.states k'.current_task ∙ ground (arith, s.current);
    }

abbrev pub yields : (Kernel → Kernel) → ℕ → Kernel → Kernel
yields idle zero k = k
yields idle (suc n) k = yields idle n (yield_cpu idle k)

-- While a task runs and the locks are open, a task with some tasks ahead of it on the ready queue
-- runs after as many calls of yield and one more.
pub yields_reach :
    (idle : Kernel → Kernel) (k : Kernel) (before : List ℕ) (x : ℕ) (after : List ℕ)
    → Runs k (before ++ x ∷ after)
    → (yields idle (suc (length before)) k).current_task ≡ x
yields_reach idle k [] x after r = (yield_cpu_turn idle k x after r).current
yields_reach idle k (y ∷ before) x after r =
    let k' = yield_cpu idle k in
    let next = Runs-yield_cpu idle k y (before ++ x ∷ after) r in
    let again = append_assoc before (x ∷ after) (k.current_task ∷ []) in
    yields_reach idle k' before x (after ++ k.current_task ∷ []) (rw (sym again) next)

-- With no task ready and the locks open, yield of the running task changes nothing.
pub yield_cpu-alone : (idle : Kernel → Kernel) (k : Kernel) → Runs k [] → yield_cpu idle k ≡ k
unfolding yield_cpu lock_schedule unlock_schedule schedule
yield_cpu-alone idle k r =
    let on : not (k.postpone_counter == 0) ≡ false = ground (arith, r.now) in
    let none : not (k.first_ready == 0) ≡ false = ground (arith, r.queue.chain) in
    let runs : is_running (state_of k k.current_task) ≡ true = ap is_running r.runs in
    rw (on, none, runs) (ap (λ i. record k { irq = i }) (Irq.unlock_schedule-lock_schedule r.irq))

-- While switches are postponed, `schedule` and `switch_to_task` only record that one is due.
pub schedule_postponed :
    (idle : Kernel → Kernel) (k : Kernel) (x : ℕ)
    → k.postpone_counter ≢ 0
    → (schedule idle k ≡ record k { postponed_flag = true })
      × (switch_to_task k x ≡ record k { postponed_flag = true })
unfolding schedule switch_to_task
schedule_postponed idle k x later =
    let on : not (k.postpone_counter == 0) ≡ true = ground arith in rw on (refl, refl)
