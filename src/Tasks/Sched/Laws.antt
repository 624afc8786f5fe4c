-- ===== src/Tasks/Sched/Laws.antt =====
-- What a call of the scheduler does: which task runs next, and where the running one goes.
use toast_os.Prelude.{
  ℕ, ◌≡◌, ◌≢◌, refl, ◌∙◌, ap, false, List, [], ◌∷◌, ◌++◌, ◌==◌, ◌&&◌, if◌then◌else◌, arith, inl,
  inr, Bool-cases, not,
}
use toast_os.Tasks.State.{
  ready, running, Task, Kernel, state_of, set_state, wake_of, next_of, zero_task,
}
use toast_os.Tasks.Links.Chain.{mem, Holds, Chain-frame}
use toast_os.Tasks.Links.Laws.{push-append, push-others}
use toast_os.Tasks.Queues.{ready_links, ready_push}
use toast_os.Tasks.Sched.{
  switch_to_task, context_switch, update_task_time, is_running, time_slice_in_ns, requeue, dispatch,
}

-- The kernel without what a dispatch may change: the TCBs, the ready queue, who runs, the accounts
-- of time and what the processor loads.
abbrev pub rest : Kernel → Kernel
rest k = record k {
  tcb = λ _. zero_task;
  current_task = 0;
  first_ready = 0;
  last_ready = 0;
  cpu_idle_time = 0;
  last_time_check = 0;
  time_slice_remaining = 0;
  tss_rsp0 = 0;
  loaded_cr3 = 0;
}

-- A TCB without its link, its state and its clock.
abbrev pub fixed : Task → Task
fixed t = record t { next = 0; state = ready; time_elapsed = 0 }

-- The tasks on the ready queue `old`, and the running task, which goes there.
abbrev pub relinked : Kernel → List ℕ → List ℕ
relinked k old = if is_running (state_of k k.current_task) then k.current_task ∷ old else old

-- From `k` to `k'` the processor went over to `x`, with `xs` left on the ready queue, which held
-- `old`; every other variable is as it was, and of the TCBs all but the clocks, the states of `x` and
-- of the task that ran, and the links of the tasks on the ready queue.
pub record Switched (k : Kernel) (old : List ℕ) (x : ℕ) (xs : List ℕ) (k' : Kernel) : Type 0 where
  pub current : k'.current_task ≡ x
  pub queue : Holds (ready_links k') xs
  pub states :
      (a : ℕ)
      → state_of k' a ≡ (
          if a == x
          then running
          else if (a == k.current_task) && is_running (state_of k a)
          then ready
          else state_of k a)
  pub slice : k'.time_slice_remaining ≡ time_slice_in_ns
  pub stack : k'.tss_rsp0 ≡ (k.tcb x).rsp0
  pub space : k'.loaded_cr3 ≡ (k.tcb x).cr3
  pub nexts : (a : ℕ) → mem a (relinked k old) ≡ false → next_of k' a ≡ next_of k a
  pub wakes : (a : ℕ) → wake_of k' a ≡ wake_of k a
  pub tasks : (a : ℕ) → fixed (k'.tcb a) ≡ fixed (k.tcb a)
  pub others : rest k' ≡ rest k

-- Storing other fields than `next` leaves the queue alone.
pub Holds-frame :
    (k k' : Kernel) (xs : List ℕ)
    → Holds (ready_links k) xs
    → k'.first_ready ≡ k.first_ready
    → k'.last_ready ≡ k.last_ready
    → ((a : ℕ) → next_of k' a ≡ next_of k a)
    → Holds (ready_links k') xs
Holds-frame k k' xs h first last same = record {
  chain = rw first (Chain-frame k.tcb k'.tcb k.first_ready xs h.chain (λ a i. same a));
  ends = last ∙ h.ends;
}

-- The clock of a task is all that `update_task_time` writes to a TCB.
time_kept :
    (k : Kernel) (a : ℕ)
    → record ((update_task_time k).tcb a) { time_elapsed = 0 }
      ≡ record (k.tcb a) { time_elapsed = 0 }
unfolding update_task_time
time_kept k a = ground arith

-- `dispatch` in parts.
module _ (k : Kernel) (x : ℕ) where
  dispatched : Kernel
  dispatched = record (set_state k x running) { time_slice_remaining = time_slice_in_ns }

  dispatch-tcb :
      (a : ℕ)
      → record ((dispatch k x).tcb a) { time_elapsed = 0 } ≡ (
          if a == x
          then record (k.tcb a) { time_elapsed = 0; state = running }
          else record (k.tcb a) { time_elapsed = 0 })
  unfolding dispatch context_switch dispatched
  dispatch-tcb a = time_kept dispatched a ∙ ground arith

  current-dispatch : (dispatch k x).current_task ≡ x
  unfolding dispatch context_switch
  current-dispatch = refl

  first-dispatch : (dispatch k x).first_ready ≡ k.first_ready
  unfolding dispatch context_switch
  first-dispatch = refl

  last-dispatch : (dispatch k x).last_ready ≡ k.last_ready
  unfolding dispatch context_switch
  last-dispatch = refl

  slice-dispatch : (dispatch k x).time_slice_remaining ≡ time_slice_in_ns
  unfolding dispatch context_switch
  slice-dispatch = refl

  dispatch-next : (a : ℕ) → next_of (dispatch k x) a ≡ next_of k a
  dispatch-next a = ap (λ (t : Task). t.next) (dispatch-tcb a) ∙ ground arith

  dispatch-wake : (a : ℕ) → wake_of (dispatch k x) a ≡ wake_of k a
  dispatch-wake a = ap (λ (t : Task). t.wake_time) (dispatch-tcb a) ∙ ground arith

  dispatch-fixed : (a : ℕ) → fixed ((dispatch k x).tcb a) ≡ fixed (k.tcb a)
  dispatch-fixed a = ap fixed (dispatch-tcb a) ∙ ground arith

  dispatch-state : (a : ℕ) → state_of (dispatch k x) a ≡ (if a == x then running else state_of k a)
  dispatch-state a = ap (λ (t : Task). t.state) (dispatch-tcb a) ∙ ground arith

  dispatch-loads :
      ((dispatch k x).tss_rsp0 ≡ (k.tcb x).rsp0) × ((dispatch k x).loaded_cr3 ≡ (k.tcb x).cr3)
  unfolding dispatch context_switch dispatched
  dispatch-loads = (
    ap (λ (t : Task). t.rsp0) (time_kept dispatched x) ∙ ground arith,
    ap (λ (t : Task). t.cr3) (time_kept dispatched x) ∙ ground arith,
  )

-- `requeue` in parts.
requeue-tcb :
    (k : Kernel) (c : ℕ) (a : ℕ)
    → record ((requeue k c).tcb a) { next = 0 } ≡ (
        if (a == c) && is_running (state_of k c)
        then record (k.tcb a) { next = 0; state = ready }
        else record (k.tcb a) { next = 0 })
unfolding requeue ready_push
requeue-tcb k c a = elim (Bool-cases (is_running (state_of k c))) [
  | inl run ↦ rw run (push-others (ready_links (set_state k c ready)) c a ∙ ground (arith, run))
  | inr stop ↦ rw stop (ground (arith, stop))
]

requeue-state :
    (k : Kernel) (c a : ℕ)
    → state_of (requeue k c) a
      ≡ (if (a == c) && is_running (state_of k c) then ready else state_of k a)
requeue-state k c a = ap (λ (t : Task). t.state) (requeue-tcb k c a) ∙ ground arith

requeue-wake : (k : Kernel) (c a : ℕ) → wake_of (requeue k c) a ≡ wake_of k a
requeue-wake k c a = ap (λ (t : Task). t.wake_time) (requeue-tcb k c a) ∙ ground arith

requeue-fixed : (k : Kernel) (c a : ℕ) → fixed ((requeue k c).tcb a) ≡ fixed (k.tcb a)
requeue-fixed k c a = ap fixed (requeue-tcb k c a) ∙ ground arith

requeue-loads :
    (k : Kernel) (c a : ℕ)
    → (((requeue k c).tcb a).rsp0 ≡ (k.tcb a).rsp0) × (((requeue k c).tcb a).cr3 ≡ (k.tcb a).cr3)
requeue-loads k c a = (
  ap (λ (t : Task). t.rsp0) (requeue-tcb k c a) ∙ ground arith,
  ap (λ (t : Task). t.cr3) (requeue-tcb k c a) ∙ ground arith,
)

requeue-rest : (k : Kernel) (c : ℕ) → rest (requeue k c) ≡ rest k
unfolding requeue ready_push
requeue-rest k c = elim (Bool-cases (is_running (state_of k c))) [
  | inl run ↦ rw run refl
  | inr stop ↦ rw stop refl
]

dispatch-rest : (k : Kernel) (x : ℕ) → rest (dispatch k x) ≡ rest k
unfolding dispatch context_switch update_task_time
dispatch-rest k x = refl

-- The ready queue once the running task is back on it.
abbrev pub requeued : Kernel → List ℕ → List ℕ
requeued k xs = if is_running (state_of k k.current_task) then xs ++ k.current_task ∷ [] else xs

module _ (k : Kernel) (xs : List ℕ) (h : Holds (ready_links k) xs) (c0 : k.current_task ≢ 0)
    (off : mem k.current_task xs ≡ false) where
  requeue-queue :
      Holds (ready_links (requeue k k.current_task)) (requeued k xs)
      × ((a : ℕ)
          → mem a (relinked k xs) ≡ false
          → next_of (requeue k k.current_task) a ≡ next_of k a)
  unfolding requeue ready_push
  requeue-queue = elim (Bool-cases (is_running (state_of k k.current_task))) [
    | inl run ↦
        let k1 = set_state k k.current_task ready in
        let same : (a : ℕ) → next_of k1 a ≡ next_of k a = λ a. ground arith in
        let h1 : Holds (ready_links k1) xs = Holds-frame k k1 xs h refl refl same in
        let (h2, spares) = push-append xs k.current_task h1 c0 off in
        rw run (h2, λ a out. spares.nexts a out ∙ same a)
    | inr stop ↦ rw stop (h, λ a out. refl)
  ]

  -- A switch to `x`: the running task is back on the queue, and `x` runs.
  pub switch_lem :
      (x : ℕ) → k.postpone_counter ≡ 0 → Switched k xs x (requeued k xs) (switch_to_task k x)
  unfolding switch_to_task
  switch_lem x now =
      let c = k.current_task in
      let k1 = requeue k c in
      let on : not (k.postpone_counter == 0) ≡ false = ground arith in
      let (queue, nexts) = requeue-queue in
      let all = dispatch-rest k1 x ∙ requeue-rest k c in
      rw on (record {
        current = current-dispatch k1 x;
        queue =
            Holds-frame k1 (dispatch k1 x) (requeued k xs) queue (first-dispatch k1 x)
              (last-dispatch k1 x) (dispatch-next k1 x);
        states = λ a. dispatch-state k1 x a ∙ ground (arith, requeue-state k c a);
        slice = slice-dispatch k1 x;
        stack = (dispatch-loads k1 x).0 ∙ (requeue-loads k c x).0;
        space = (dispatch-loads k1 x).1 ∙ (requeue-loads k c x).1;
        nexts = λ a out. dispatch-next k1 x a ∙ nexts a out;
        wakes = λ a. dispatch-wake k1 x a ∙ requeue-wake k c a;
        tasks = λ a. dispatch-fixed k1 x a ∙ requeue-fixed k c a;
        others = all;
      })
