-- ===== src/Tasks/Links/Order.antt =====
-- `sleep_push` as an insertion by wake time into a queue that is in that order.
use toast_os.Prelude.{
  ℕ, zero, suc, ◌≡◌, ◌≢◌, refl, ◌∙◌, ap, sym, true, false, List, [], ◌∷◌, ◌==◌, if◌then◌else◌,
  arith, All, fun_ext, ◌++◌, length, ◌<◌, ◌≤◌, inl, inr, lt_or_le, ltb, leb,
}
use toast_os.Tasks.State.{Task, put_next}
use toast_os.Tasks.Links.{Links, insert, find_slot}
use toast_os.Tasks.Links.Chain.{
  mem, last_or, Chain, Holds, last_or-mem, Chain-frame, not-mem-zero, Spares, wake-spared,
}
use toast_os.Tasks.Links.Laws.{put_next-Spares, Spares-trans}
use toast_os.Tasks.Links.Place.{
  place, SortedFrom, place-Sorted, mem-place, cut_before, cut_after, cut,
}

-- What the walk of `sleep_push` finds: the task behind which `y` goes.
record Slot (tcb : ℕ → Task) (wake : ℕ → ℕ) (y p x : ℕ) (xs : List ℕ) (tracker : ℕ) : Type 0 where
  inside : mem tracker (x ∷ xs) ≡ true
  linked :
      (tcb' : ℕ → Task)
      → (tcb' tracker).next ≡ y
      → (tcb' y).next ≡ (tcb tracker).next
      → ((a : ℕ) → mem a (x ∷ xs) ≡ true → a ≢ tracker → (tcb' a).next ≡ (tcb a).next)
      → Chain tcb' p (x ∷ place wake y xs)
  ends : (if (tcb tracker).next == 0 then y else last_or x xs) ≡ last_or x (place wake y xs)

module _ (tcb : ℕ → Task) (wake : ℕ → ℕ) (reads : (a : ℕ) → (tcb a).wake_time ≡ wake a) (y : ℕ)
    (y0 : y ≢ 0) where
  find_slot-Slot :
      (bound p x : ℕ) (xs : List ℕ)
      → Chain tcb p (x ∷ xs)
      → mem y (x ∷ xs) ≡ false
      → length xs < bound
      → Slot tcb wake y p x xs (find_slot tcb bound p (wake y))
  unfolding find_slot
  find_slot-Slot zero p x xs c out lt = absurd (omega arith)
  find_slot-Slot (suc bound) p x [] (e, x0, fresh, c) out lt =
      let test : ((tcb p).next == 0) ≡ true = ground (arith, ap (λ z. (tcb z).next) e) in
      rw test (record {
        inside = ground arith;
        linked = λ tcb' l l' same. (
          e,
          x0,
          ground arith,
          (ap (λ z. (tcb' z).next) (sym e) ∙ l, y0, refl, l' ∙ ap (λ z. (tcb z).next) e ∙ c),
        );
        ends = rw test;
      })
  find_slot-Slot (suc bound) p x (z ∷ zs) (e, x0, fresh, (e', z0, fresh', c)) out lt =
      let next≡ : (tcb p).next ≡ z = ap (λ a. (tcb a).next) e ∙ e' in
      let full : ((tcb p).next == 0) ≡ false = ground arith in
      elim (lt_or_le (wake y) (wake z)) [
        | inl before ↦
            let test : ltb (wake y) (wake z) ≡ true = ground arith in
            let stop : leb (tcb (tcb p).next).wake_time (wake y) ≡ false =
              ground (arith, reads (tcb p).next, ap wake next≡) in
            rw (full, stop)
              (record {
                inside = ground arith;
                linked = λ tcb' l l' same. rw test (
                  e,
                  x0,
                  ground arith,
                  (
                    ap (λ a. (tcb' a).next) (sym e) ∙ l,
                    y0,
                    ground arith,
                    (
                      l' ∙ next≡,
                      z0,
                      fresh',
                      rw (same z (ground arith) (λ eq. ground arith)) (
                          Chain-frame tcb tcb' (tcb z).next zs c
                            (λ a i. same a (ground arith) (λ eq. ground arith))),
                    ),
                  ),
                );
                ends = rw (full, test);
              })
        | inr after ↦
            let test : ltb (wake y) (wake z) ≡ false = ground arith in
            let go : leb (tcb (tcb p).next).wake_time (wake y) ≡ true =
              ground (arith, reads (tcb p).next, ap wake next≡) in
            let rec =
              find_slot-Slot bound (tcb p).next z zs (next≡, z0, fresh', c) (ground arith)
                (omega arith) in
            let tracker : ℕ = find_slot tcb bound (tcb p).next (wake y) in
            rw (full, go)
              (record {
                inside = ground (arith, rec.inside);
                linked = λ tcb' l l' same.
                    let x≢ : x ≢ tracker =
                      λ eq. ground (arith, rec.inside, ap (λ a. mem a (z ∷ zs)) eq) in
                    let at : (tcb' x).next ≡ (tcb p).next =
                      same x (ground arith) x≢ ∙ ap (λ a. (tcb a).next) (sym e) in
                    rw test (
                      e,
                      x0,
                      ground (arith, mem-place wake x y zs),
                      rw at (rec.linked tcb' l l' (λ a i ne. same a (ground arith) ne)),
                    );
                ends = rw test rec.ends;
              })
      ]

insert_lem :
    {l : Links} (bound y : ℕ) (xs : List ℕ)
    → Holds l xs
    → y ≢ 0
    → mem y xs ≡ false
    → length xs ≤ bound
    → Holds (insert bound l y) (place (λ a. (l.tcb a).wake_time) y xs)
      × Spares (y ∷ xs) l.tcb (insert bound l y).tcb
unfolding insert
insert_lem {l} bound y [] h ne out le =
    let e : (l.first == 0) ≡ true = ground (arith, h.chain) in
    let e' : (l.last == 0) ≡ true = ground (arith, h.ends) in
    rw (e, e')
      (
        record { chain = (refl, ne, refl, ground (arith, h.chain)); ends = refl },
        record { nexts = λ a o. ground arith; others = λ a. ground arith },
      )
insert_lem {l} bound y (x ∷ xs) h ne out le =
    let (e, x0, fresh, c) = h.chain in
    let nonempty : (l.first == 0) ≡ false = ground arith in
    let filled : (l.last == 0) ≡ false =
      ground (arith, h.ends, last_or-mem x xs, not-mem-zero l.tcb l.first (x ∷ xs) h.chain) in
    let tcb1 = put_next l.tcb y 0 in
    let wake = λ (a : ℕ). (l.tcb a).wake_time in
    let reads : (a : ℕ) → (tcb1 a).wake_time ≡ (l.tcb a).wake_time = λ a. ground arith in
    let at_first : (tcb1 l.first).wake_time ≡ (l.tcb x).wake_time = reads l.first ∙ ap wake e in
    elim (lt_or_le (wake y) (wake x)) [
      | inl before ↦
          let test : ltb (wake y) (wake x) ≡ true = ground arith in
          let tcb' = put_next tcb1 y l.first in
          let keep : (tcb' x).next ≡ (l.tcb x).next = ground arith in
          rw (nonempty, at_first, test, filled)
            (
              record {
                chain = (
                  refl,
                  ne,
                  out,
                  (
                    ground arith,
                    x0,
                    fresh,
                    rw keep (Chain-frame l.tcb tcb' (l.tcb x).next xs c (λ a i. ground arith)),
                  ),
                );
                ends = h.ends;
              },
              record { nexts = λ a o. ground arith; others = λ a. ground arith },
            )
      | inr after ↦
          let test : ltb (wake y) (wake x) ≡ false = ground arith in
          let chain1 = Chain-frame l.tcb tcb1 l.first (x ∷ xs) h.chain (λ a i. ground arith) in
          let slot =
            find_slot-Slot tcb1 wake reads y ne bound l.first x xs chain1 out (omega arith) in
          let tracker : ℕ = find_slot tcb1 bound l.first (wake y) in
          let tcb2 = put_next tcb1 y (tcb1 tracker).next in
          let apart : tracker ≢ y =
            λ eq. ground (arith, slot.inside, ap (λ a. mem a (x ∷ xs)) eq) in
          rw (nonempty, at_first, test)
            (
              record {
                chain =
                    slot.linked (put_next tcb2 tracker y) (ground arith) (ground arith)
                      (λ a i off. ground arith);
                ends = ap (λ z. if (tcb1 tracker).next == 0 then y else z) h.ends ∙ slot.ends;
              },
              Spares-trans {xs = y ∷ []}
                  (Spares-trans (put_next-Spares l.tcb y 0)
                    (put_next-Spares tcb1 y (tcb1 tracker).next) (λ a o. (o, o)))
                  (put_next-Spares tcb2 tracker y)
                  (λ a o. (
                    ground arith,
                    ground (arith, slot.inside, ap (λ z. mem z (x ∷ xs)) {x = a} {y = tracker}),
                  )),
            )
    ]

-- On a queue of sleepers in the order of their wake times, and with a round for each of them,
-- sleep_push puts a task that is on no queue behind every sleeper that wakes no later and ahead of
-- every one that wakes later, the others keeping their order; the queue is in the order of the
-- wake times again, and the links of no other queue are written.
pub insert-place :
    {l : Links} (bound y : ℕ) (xs : List ℕ)
    → Holds l xs
    → SortedFrom (λ a. (l.tcb a).wake_time) 0 xs
    → y ≢ 0
    → mem y xs ≡ false
    → length xs ≤ bound
    → (before after : List ℕ) × (xs ≡ before ++ after)
      × Holds (insert bound l y) (before ++ y ∷ after)
      × All (λ a. (l.tcb a).wake_time ≤ (l.tcb y).wake_time) before
      × All (λ a. (l.tcb y).wake_time < (l.tcb a).wake_time) after
      × SortedFrom (λ a. ((insert bound l y).tcb a).wake_time) 0 (before ++ y ∷ after)
      × Spares (y ∷ xs) l.tcb (insert bound l y).tcb
insert-place {l} bound y xs h sorted ne out le =
    let wake = λ (a : ℕ). (l.tcb a).wake_time in
    let (holds, spares) = insert_lem bound y xs h ne out le in
    let (split, at, no_later, later) = cut wake y 0 xs sorted in
    let order = place-Sorted wake 0 y xs sorted (omega arith) in
    let same : (λ a. ((insert bound l y).tcb a).wake_time) ≡ wake = fun_ext (wake-spared spares) in
    (
      cut_before wake y xs,
      cut_after wake y xs,
      split,
      rw (sym at) holds,
      no_later,
      later,
      rw (same, sym at) order,
      spares,
    )
