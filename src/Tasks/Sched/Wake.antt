-- ===== src/Tasks/Sched/Wake.antt =====
-- Waking the sleepers, `timer_check_sleeping_tasks` of kernel/multitasking/task.c.
use toast_os.Prelude.{
  ℕ, ◌≡◌, refl, ◌∙◌, ap, sym, true, false, List, [], ◌∷◌, ◌++◌, ◌==◌, if◌then◌else◌, arith, not,
  length, append_assoc, append-nil, leb, inl, inr, Bool-cases,
}
use toast_os.Irq
use toast_os.Tasks.State.{Task, Kernel, next_of, ready, state_of, wake_of, set_state, zero_task}
use toast_os.Tasks.Links.Chain.{
  mem, Chain, Holds, state-spared, Chain-spared, mem-append, Chain-frame,
}
use toast_os.Tasks.Links.Laws.{pop-cons, push-append}
use toast_os.Tasks.Queues.{ready_links, ready_push, sleep_links, sleep_pop}
use toast_os.Tasks.Sched.{lock_schedule, unlock_schedule, unblock_task, wake_sleepers}
use toast_os.Tasks.Sched.Laws.{Holds-frame}

-- The kernel without the TCBs and the two queues.
abbrev pub rest : Kernel → Kernel
rest k = record k {
  tcb = λ _. zero_task;
  first_ready = 0;
  last_ready = 0;
  first_sleeping = 0;
  last_sleeping = 0;
}

-- No task is on both lists.
abbrev pub Apart : List ℕ → List ℕ → Type 0
Apart xs ys = (a : ℕ) → mem a xs ≡ true → mem a ys ≡ false

-- The sleepers at the front of the queue whose time has come, and those from the first that still
-- has to wait.
abbrev pub due : Kernel → ℕ → List ℕ → List ℕ
due k now [] = []
due k now (x ∷ xs) = let rest = due k now xs in if leb (wake_of k x) now then x ∷ rest else []

abbrev pub late : Kernel → ℕ → List ℕ → List ℕ
late k now [] = []
late k now (x ∷ xs) = let rest = late k now xs in if leb (wake_of k x) now then rest else x ∷ xs

-- A TCB without its link and its state.
abbrev pub lasting : Task → Task
lasting t = record t { next = 0; state = ready }

-- From `k` to `k'` the tasks `woken` went from the sleeping queue to the end of the ready queue.
pub record Woken (k k' : Kernel) (rs woken ss : List ℕ) : Type 0 where
  pub ready_queue : Holds (ready_links k') (rs ++ woken)
  pub sleeping_queue : Holds (sleep_links k') ss
  pub states : (a : ℕ) → state_of k' a ≡ (if mem a woken then ready else state_of k a)
  pub tasks : (a : ℕ) → lasting (k'.tcb a) ≡ lasting (k.tcb a)
  pub nexts : (a : ℕ) → mem a (rs ++ woken) ≡ false → next_of k' a ≡ next_of k a
  pub others : rest k' ≡ rest k

-- Storing a state.
marked :
    (tcb : ℕ → Task) (x a : ℕ)
    → lasting (if a == x then record (tcb a) { state = ready } else tcb a) ≡ lasting (tcb a)
marked tcb x a = ground arith

-- One sleeper.
wake_first :
    (k : Kernel) (rs : List ℕ) (x : ℕ) (ss : List ℕ)
    → Irq.IsValid k.irq
    → Holds (ready_links k) rs
    → Holds (sleep_links k) (x ∷ ss)
    → Apart (x ∷ ss) rs
    → Woken k (unblock_task (sleep_pop k).1 (sleep_pop k).0) rs (x ∷ []) ss
unfolding unblock_task lock_schedule unlock_schedule ready_push sleep_pop
wake_first k rs x ss irq hr hs apart =
    let (e, hs1, spares, _) = pop-cons x ss hs in
    let (_, ne, out, _) = hs.chain in
    let k1 = set_state (lock_schedule (sleep_pop k).1) x ready in
    let off : mem x rs ≡ false = apart x (ground arith) in
    let hr1 : Holds (ready_links (sleep_pop k).1) rs = record {
      chain = Chain-spared spares k.first_ready rs hr.chain (λ a i. ground (arith, apart a));
      ends = hr.ends;
    } in
    let hr2 : Holds (ready_links k1) rs =
      Holds-frame (sleep_pop k).1 k1 rs hr1 refl refl (λ a. ground arith) in
    let (hr3, spares') = push-append rs x hr2 ne off in
    let hs2 : Chain k1.tcb k1.first_sleeping ss =
      Chain-frame (sleep_pop k).1.tcb k1.tcb (sleep_pop k).1.first_sleeping ss hs1.chain
        (λ a i. ground arith) in
    rw e (record {
      ready_queue = hr3;
      sleeping_queue = record {
        chain = Chain-spared spares' k1.first_sleeping ss hs2 (λ a i. ground (arith, apart a));
        ends = hs1.ends;
      };
      states = λ a. state-spared spares' a ∙ ground (arith, state-spared spares a);
      tasks = λ a.
          ap lasting (spares'.others a)
          ∙ marked (sleep_pop k).1.tcb x a
          ∙ ap lasting (spares.others a);
      nexts = λ a out.
          let apart' = mem-append a rs (x ∷ []) in
          spares'.nexts a (ground (arith, apart'))
          ∙ ground arith
          ∙ spares.nexts a (ground (arith, apart'));
      others = ap (λ i. record (rest k) { irq = i }) (Irq.unlock_schedule-lock_schedule irq);
    })

-- Who is due is a matter of the wake times only.
due-frame :
    (now : ℕ) (k k' : Kernel)
    → ((a : ℕ) → wake_of k' a ≡ wake_of k a)
    → (ss : List ℕ) → (due k' now ss ≡ due k now ss) × (late k' now ss ≡ late k now ss)
due-frame now k k' same [] = (refl, refl)
due-frame now k k' same (x ∷ ss) =
    let (d, l) = due-frame now k k' same ss in rw (same x, d, l) (refl, refl)

-- On a kernel whose ready and sleeping queues are well formed and share no task, with as many
-- rounds as there are sleepers, the loop of timer_check_sleeping_tasks moves the sleepers at the
-- front whose time has come to the end of the ready queue, in their order; it stops at the first
-- whose time has not come. Of the TCBs only the states of the woken change and the links of the
-- tasks that are then on the ready queue, and of the other variables only the ends of the two
-- queues.
pub wake_sleepers_lem :
    (now : ℕ) (k : Kernel) (rs ss : List ℕ)
    → Irq.IsValid k.irq
    → Holds (ready_links k) rs
    → Holds (sleep_links k) ss
    → Apart ss rs
    → Woken k (wake_sleepers (length ss) now k) rs (due k now ss) (late k now ss)
unfolding wake_sleepers
wake_sleepers_lem now k rs [] irq hr hs apart = record {
  ready_queue = rw (append-nil rs) hr;
  sleeping_queue = hs;
  states = λ a. refl;
  tasks = λ a. refl;
  nexts = λ a out. refl;
  others = refl;
}
wake_sleepers_lem now k rs (x ∷ ss) irq hr hs apart =
    let (first, ne, out, chain) = hs.chain in
    let some : not (k.first_sleeping == 0) ≡ true = ground arith in
    elim (Bool-cases (leb (wake_of k x) now)) [
      | inr not_yet ↦
          let test : leb (wake_of k k.first_sleeping) now ≡ false =
            ap (λ z. leb (wake_of k z) now) first ∙ not_yet in
          rw (test, not_yet, some)
            (record {
              ready_queue = rw (append-nil rs) hr;
              sleeping_queue = hs;
              states = λ a. refl;
              tasks = λ a. refl;
              nexts = λ a out. refl;
              others = refl;
            })
      | inl yet ↦
          let test : leb (wake_of k k.first_sleeping) now ≡ true =
            ap (λ z. leb (wake_of k z) now) first ∙ yet in
          let w = wake_first k rs x ss irq hr hs apart in
          let k' = unblock_task (sleep_pop k).1 (sleep_pop k).0 in
          let irq' : Irq.IsValid k'.irq = rw (ap (λ (z : Kernel). z.irq) w.others) irq in
          let apart' : Apart ss (rs ++ x ∷ []) =
            λ a i. ground (arith, mem-append a rs (x ∷ []), apart a) in
          let w' =
            wake_sleepers_lem now k' (rs ++ x ∷ []) ss irq' w.ready_queue w.sleeping_queue apart' in
          let same = due-frame now k k' (λ a. ap (λ (t : Task). t.wake_time) (w.tasks a)) ss in
          rw (test, yet, some)
            (record {
              ready_queue =
                  rw (sym (append_assoc rs (x ∷ []) (due k now ss)), sym same.0) w'.ready_queue;
              sleeping_queue = rw (sym same.1) w'.sleeping_queue;
              states = λ a. w'.states a ∙ ground (arith, w.states a, same.0);
              tasks = λ a. w'.tasks a ∙ w.tasks a;
              nexts = λ a out.
                  let later = append_assoc rs (x ∷ []) (due k now ss) in
                  w'.nexts a (ap (λ l. mem a ((rs ++ x ∷ []) ++ l)) same.0 ∙ ap (mem a) later ∙ out)
                  ∙ w.nexts a (
                      ground
                        (arith, out, mem-append a rs (x ∷ []), mem-append a rs (x ∷ due k now ss)));
              others = w'.others ∙ w.others;
            })
    ]
