-- ===== src/Tasks/Sync/Laws.antt =====
-- What `acquire_semaphore` and `release_semaphore` of kernel/multitasking/task.c do to the count and
-- to the waiters.
use toast_os.Prelude.{
  ℕ, ◌+◌, ◌^◌, ◌<◌, ◌≡◌, ◌≢◌, refl, ◌∙◌, ap, sym, fun_ext, true, false, List, [], ◌∷◌, ◌++◌, ◌==◌,
  ◌&&◌, if◌then◌else◌, arith, not, u32, sub32, zero, suc, Bool-cases, inl, inr,
}
use toast_os.Prelude.Int.{ℤ, pos, negsuc, ltb_ℤ, incr, decr}
use toast_os.Irq
use toast_os.Tasks.State.{Task, Kernel, ready, state_of, with_sem, set_state, zero_task}
use toast_os.Tasks.Sched.{lock_schedule, unlock_schedule, lock_stuff, unlock_stuff, unblock_task}
use toast_os.Tasks.Links.{pop}
use toast_os.Tasks.Links.Chain.{mem, Holds, state-spared, Chain-spared, Chain-frame}
use toast_os.Tasks.Links.Laws.{pop-cons, push-append}
use toast_os.Tasks.Queues.{ready_links, ready_push, sem_links, sem_pop, wait_for, put_sem}
use toast_os.Tasks.Sched.Laws.{Holds-frame}
use toast_os.Tasks.Sched.Wake.{Apart}
use toast_os.Tasks.Sync.{new_semaphore, acquire_semaphore, release_semaphore}

-- No switch is due, and the locks can be taken once more.
pub record Calm (k : Kernel) : Type 0 where
  pub irq : Irq.IsValid k.irq
  pub small : k.postpone_counter + 1 < 2 ^ 32
  pub none_due : k.postponed_flag ≡ false

-- `unlock_stuff` undoes `lock_stuff` around what touches neither.
pub unlock_stuff-lock_stuff :
    (idle : Kernel → Kernel) {k : Kernel} (k' : Kernel)
    → Calm k
    → k'.irq ≡ Irq.lock_schedule k.irq
    → k'.postpone_counter ≡ u32 (k.postpone_counter + 1)
    → k'.postponed_flag ≡ false
    → unlock_stuff idle k' ≡ record k' { irq = k.irq; postpone_counter = k.postpone_counter }
unfolding unlock_stuff unlock_schedule
unlock_stuff-lock_stuff idle {k} k' c irq count due =
    let back : sub32 k'.postpone_counter 1 ≡ k.postpone_counter = omega (arith, c.small, count) in
    let off : ((sub32 k'.postpone_counter 1 == 0) && k'.postponed_flag) ≡ false = ground arith in
    rw off (
      ap
        (λ i. record k' {
          irq = Irq.unlock_schedule i;
          postpone_counter = sub32 k'.postpone_counter 1;
        })
        irq
      ∙ ap (λ i. record k' { irq = i; postpone_counter = sub32 k'.postpone_counter 1 })
          (Irq.unlock_schedule-lock_schedule c.irq)
      ∙ ap (λ n. record k' { irq = k.irq; postpone_counter = n }) back)

module _ (idle : Kernel → Kernel) {k : Kernel} (c : Calm k) (s : ℕ) where
  -- With no switch due, acquiring while the count is below its limit counts one more, and changes
  -- nothing else.
  pub acquire_semaphore-free :
      ltb_ℤ (k.sem s).current_count (k.sem s).max_count ≡ true
      → acquire_semaphore idle k s
        ≡ with_sem k s (λ m. record m { current_count = incr m.current_count })
  unfolding acquire_semaphore lock_stuff
  acquire_semaphore-free free =
      let k1 = with_sem (lock_stuff k) s (λ m. record m { current_count = incr m.current_count }) in
      rw free (unlock_stuff-lock_stuff idle k1 c refl refl c.none_due)

  -- With no task waiting, releasing counts one less, and changes nothing else.
  pub release_semaphore-nobody :
      (k.sem s).first_waiting_task ≡ 0
      → release_semaphore idle k s
        ≡ with_sem k s (λ m. record m { current_count = decr m.current_count })
  unfolding release_semaphore lock_stuff
  release_semaphore-nobody nobody =
      let k1 = with_sem (lock_stuff k) s (λ m. record m { current_count = decr m.current_count }) in
      let test : not ((k.sem s).first_waiting_task == 0) ≡ false = ground arith in
      rw test (unlock_stuff-lock_stuff idle k1 c refl refl c.none_due)

decr-incr : (z : ℤ) → decr (incr z) ≡ z
decr-incr (pos n) = refl
decr-incr (negsuc zero) = refl
decr-incr (negsuc (suc n)) = refl

-- Acquiring below the limit and releasing, with no task waiting and no switch due, restores the
-- kernel.
pub release_semaphore-acquire_semaphore :
    (idle : Kernel → Kernel) {k : Kernel}
    → Calm k
    → (s : ℕ) → ltb_ℤ (k.sem s).current_count (k.sem s).max_count ≡ true
    → (k.sem s).first_waiting_task ≡ 0
    → release_semaphore idle (acquire_semaphore idle k s) s ≡ k
release_semaphore-acquire_semaphore idle {k} c s free nobody =
    let taken = with_sem k s (λ m. record m { current_count = incr m.current_count }) in
    let c' : Calm taken = record { irq = c.irq; small = c.small; none_due = c.none_due } in
    rw (acquire_semaphore-free idle c s free) (
      release_semaphore-nobody idle c' s (ground arith)
      ∙ ap (λ f. record k { sem = f })
          (fun_ext (λ q. elim (Bool-cases (q == s)) [
            | inl e ↦ rw (e, decr-incr (k.sem q).current_count) refl
            | inr e ↦ rw e refl
          ])))

-- From `k` to `k'` the semaphore went over to its first waiter `x`, which is ready to run.
pub record HandedOver (k : Kernel) (s x : ℕ) (ws rs : List ℕ) (k' : Kernel) : Type 0 where
  pub ready_queue : Holds (ready_links k') (rs ++ x ∷ [])
  pub waiters : Holds (sem_links k' s) ws
  pub states : (a : ℕ) → state_of k' a ≡ (if a == x then ready else state_of k a)
  pub released : (k'.tcb x).waiting_for ≡ 0
  pub count : (k'.sem s).current_count ≡ (k.sem s).current_count
  pub running_on : k'.current_task ≡ k.current_task
  pub irq : k'.irq ≡ k.irq

-- The kernel without the TCBs and the semaphores.
hide : Kernel → Kernel
hide k = record k { tcb = λ _. zero_task; sem = λ _. new_semaphore (pos 0) }

-- `sem_pop` on a semaphore with a waiter.
record Popped (k : Kernel) (s x : ℕ) (ws : List ℕ) (task : ℕ) (k' : Kernel) : Type 0 where
  who : task ≡ x
  waiters : Holds (sem_links k' s) ws
  nexts : (a : ℕ) → a ≢ x → (k'.tcb a).next ≡ (k.tcb a).next
  states : (a : ℕ) → state_of k' a ≡ state_of k a
  released : (k'.tcb x).waiting_for ≡ 0
  count : (k'.sem s).current_count ≡ (k.sem s).current_count
  others : hide k' ≡ hide k

sem_pop-cons :
    (k : Kernel) (s x : ℕ) (ws : List ℕ)
    → Holds (sem_links k s) (x ∷ ws)
    → Popped k s x ws (sem_pop k s).0 (sem_pop k s).1
unfolding sem_pop hide
sem_pop-cons k s x ws h =
    let (e, h1, spares, _) = pop-cons x ws h in
    let (first, ne, out, _) = h.chain in
    let (task, l) = pop (sem_links k s) in
    let test : (task == 0) ≡ false = ground arith in
    let k' = wait_for (put_sem k s l) task 0 in
    rw test (record {
      who = e;
      waiters = record {
        chain =
            Chain-frame l.tcb k'.tcb (k'.sem s).first_waiting_task ws (ground arith)
              (λ a i. ground arith);
        ends = ground (arith, h1.ends);
      };
      nexts = λ a apart. ground (arith, spares.nexts a);
      states = λ a. ground (arith, state-spared spares a);
      released = ap (λ z. (k'.tcb z).waiting_for) (sym e) ∙ ground arith;
      count = ground arith;
      others = refl;
    })

-- With no switch due, releasing a semaphore that tasks wait for gives it to the first of them:
-- that task leaves the waiters for the end of the ready queue, and the count stays.
pub release_semaphore-waiting :
    (idle : Kernel → Kernel) {k : Kernel}
    → Calm k
    → (s x : ℕ) (ws rs : List ℕ) → Holds (sem_links k s) (x ∷ ws)
    → Holds (ready_links k) rs
    → Apart (x ∷ ws) rs
    → HandedOver k s x ws rs (release_semaphore idle k s)
unfolding release_semaphore lock_stuff unblock_task lock_schedule unlock_schedule ready_push hide
release_semaphore-waiting idle {k} c s x ws rs hw hr apart =
    let k1 = lock_stuff k in
    let p = sem_pop-cons k1 s x ws hw in
    let (first, ne, out, _) = hw.chain in
    let some : not ((k.sem s).first_waiting_task == 0) ≡ true = ground arith in
    let popped = (sem_pop k1 s).1 in
    let k2 = set_state (lock_schedule popped) x ready in
    let off : mem x rs ≡ false = apart x (ground arith) in
    let hr1 : Holds (ready_links popped) rs = record {
      chain = rw (ap (λ (z : Kernel). z.first_ready) p.others) (
          Chain-frame k.tcb popped.tcb k.first_ready rs hr.chain
            (λ a i. p.nexts a (λ z. ground (arith, z))));
      ends = ap (λ (z : Kernel). z.last_ready) p.others ∙ hr.ends;
    } in
    let hr2 : Holds (ready_links k2) rs =
      Holds-frame popped k2 rs hr1 refl refl (λ a. ground arith) in
    let (hr3, spares) = push-append rs x hr2 ne off in
    let irq : (unblock_task popped x).irq ≡ Irq.lock_schedule k.irq =
      ap (λ (z : Kernel). Irq.unlock_schedule (Irq.lock_schedule z.irq)) p.others
      ∙ Irq.unlock_schedule-lock_schedule_inner c.irq in
    let eq =
      unlock_stuff-lock_stuff idle {k = k} (unblock_task popped x) c irq
        (ap (λ (z : Kernel). z.postpone_counter) p.others)
        (ap (λ (z : Kernel). z.postponed_flag) p.others ∙ c.none_due) in
    rw (some, p.who, eq)
      (record {
        ready_queue = hr3;
        waiters = record {
          chain =
              Chain-spared spares (popped.sem s).first_waiting_task ws
                (Chain-frame popped.tcb k2.tcb (popped.sem s).first_waiting_task ws p.waiters.chain
                  (λ a i. ground arith))
                (λ a i. ground (arith, apart a));
          ends = p.waiters.ends;
        };
        states = λ a. state-spared spares a ∙ ground (arith, p.states a);
        released = ap (λ (t : Task). t.waiting_for) (spares.others x) ∙ ground (arith, p.released);
        count = p.count;
        running_on = ap (λ (z : Kernel). z.current_task) p.others;
        irq = refl;
      })
