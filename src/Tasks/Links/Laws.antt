-- ===== src/Tasks/Links/Laws.antt =====
-- The queue operations as operations on the list of tasks: `push` appends, `pop` takes the head,
-- `remove` drops one task, and each writes the `next` fields of the queue's tasks only.
use toast_os.Prelude.{
  ℕ, zero, suc, ◌≡◌, ◌≢◌, refl, ◌∙◌, ap, sym, true, false, List, [], ◌∷◌, ◌++◌, ◌==◌, if◌then◌else◌,
  arith, length, ◌<◌, ◌≤◌, inl, inr, Bool-cases, not,
}
use toast_os.Tasks.State.{Task, put_next}
use toast_os.Tasks.Links.{Links, push, pop, remove, find_before}
use toast_os.Tasks.Links.Chain.{
  mem, last_or, Chain, Holds, last_or-mem, last_or-append, Chain-frame, not-mem-zero, Chain-snoc,
  Spares,
}

module _ {l : Links} {xs : List ℕ} (h : Holds l xs) where
  -- `first` and `last` are NULL together, for the empty queue.
  pub not-mem-null : mem 0 xs ≡ false
  not-mem-null = not-mem-zero l.tcb l.first xs h.chain

pub put_next-Spares : (tcb : ℕ → Task) (p v : ℕ) → Spares (p ∷ []) tcb (put_next tcb p v)
put_next-Spares tcb p v = record { nexts = λ a out. ground arith; others = λ a. ground arith }

pub Spares-trans :
    {xs ys zs : List ℕ} {f g k : ℕ → Task}
    → Spares xs f g
    → Spares ys g k
    → ((a : ℕ) → mem a zs ≡ false → (mem a xs ≡ false) × (mem a ys ≡ false))
    → Spares zs f k
Spares-trans p q sub = record {
  nexts = λ a out. q.nexts a (sub a out).1 ∙ p.nexts a (sub a out).0;
  others = λ a. q.others a ∙ p.others a;
}

-- `push` appends the task, which must be on no queue.
pub push-append :
    {l : Links} (xs : List ℕ) (y : ℕ)
    → Holds l xs
    → y ≢ 0
    → mem y xs ≡ false
    → Holds (push l y) (xs ++ y ∷ []) × Spares (y ∷ xs) l.tcb (push l y).tcb
unfolding push
push-append {l} [] y h ne fresh =
    let e : (l.last == 0) ≡ true = ground (arith, h.ends) in
    rw e (
      record { chain = (refl, ne, refl, ground arith); ends = refl },
      record { nexts = λ a out. ground arith; others = λ a. ground arith },
    )
push-append {l} (x ∷ xs) y h ne fresh =
    let end : l.last ≡ last_or x xs = h.ends in
    let inside : mem l.last (x ∷ xs) ≡ true = ap (λ z. mem z (x ∷ xs)) end ∙ last_or-mem x xs in
    let null = not-mem-zero l.tcb l.first (x ∷ xs) h.chain in
    let e : (l.last == 0) ≡ false = ground arith in
    let tcb' = put_next (put_next l.tcb y 0) l.last y in
    let apart : l.last ≢ y = λ same. ground arith in
    rw e (
      record {
        chain =
            Chain-snoc l.tcb tcb' l.first y x xs h.chain ne fresh (ground arith)
              (ap (λ z. (tcb' z).next) (sym end) ∙ ground arith) (λ a i off. ground arith);
        ends = sym (last_or-append 0 y (x ∷ xs));
      },
      Spares-trans (put_next-Spares l.tcb y 0) (put_next-Spares (put_next l.tcb y 0) l.last y)
          (λ a out. (ground arith, ground arith)),
    )

ends_after :
    (tcb : ℕ → Task) (p last x : ℕ) (ys : List ℕ)
    → Chain tcb p ys
    → last ≡ last_or x ys
    → (if p == 0 then 0 else last) ≡ last_or 0 ys
ends_after tcb p last x [] e end = ground arith
ends_after tcb p last x (y ∷ ys) c end = ground arith

-- `pop` takes the head.
pub pop-cons :
    {l : Links} (x : ℕ) (xs : List ℕ)
    → Holds l (x ∷ xs)
    → let (task, l') = pop l in
      (task ≡ x) × Holds l' xs × Spares (x ∷ []) l.tcb l'.tcb × ((l'.tcb x).next ≡ 0)
unfolding pop
pop-cons {l} x xs h =
    let (e, ne, out, rest) = h.chain in
    let test : (l.first == 0) ≡ false = ground arith in
    rw test (
      e,
      record {
        chain =
            Chain-frame l.tcb (put_next l.tcb l.first 0) (l.tcb l.first).next xs
              (rw (ap (λ z. (l.tcb z).next) e) rest) (λ a i. ground arith);
        ends =
            ends_after l.tcb (l.tcb l.first).next l.last x xs (rw (ap (λ z. (l.tcb z).next) e) rest)
              h.ends;
      },
      record { nexts = λ a apart. ground arith; others = λ a. ground arith },
      ground arith,
    )

-- On the empty queue `pop` gives NULL and changes nothing.
pub pop-nil : {l : Links} → Holds l [] → pop l ≡ (0, l)
unfolding pop
pop-nil {l} h = let test : (l.first == 0) ≡ true = ground arith in rw test refl

-- The list without its first occurrence of `t`.
abbrev pub delete : ℕ → List ℕ → List ℕ
delete t [] = []
delete t (x ∷ xs) = if t == x then xs else x ∷ delete t xs

pub mem-delete : (t a : ℕ) (xs : List ℕ) → mem a xs ≡ false → mem a (delete t xs) ≡ false
mem-delete t a [] h = refl
mem-delete t a (x ∷ xs) h = ground (arith, mem-delete t a xs)

-- What the walk of `remove` finds: the task before, whose link it turns round the removed task.
record Found (tcb : ℕ → Task) (p x : ℕ) (xs : List ℕ) (t tracker : ℕ) : Type 0 where
  inside : mem tracker (x ∷ xs) ≡ true
  before : (tcb tracker).next ≡ t
  other : tracker ≢ t
  turned :
      (tcb' : ℕ → Task)
      → (tcb' tracker).next ≡ (tcb t).next
      → ((a : ℕ) → mem a (x ∷ xs) ≡ true → a ≢ t → a ≢ tracker → (tcb' a).next ≡ (tcb a).next)
      → Chain tcb' p (x ∷ delete t xs)
  ends : (if t == last_or x xs then tracker else last_or x xs) ≡ last_or x (delete t xs)

last_before :
    (x y : ℕ) (ys : List ℕ)
    → mem y ys ≡ false
    → (if y == last_or y ys then x else last_or y ys) ≡ last_or x ys
last_before x y [] out = ground arith
last_before x y (z ∷ zs) out = ground (arith, last_or-mem z zs)

find_before-Found :
    (tcb : ℕ → Task) (bound p x t : ℕ) (xs : List ℕ)
    → Chain tcb p (x ∷ xs)
    → t ≢ x
    → mem t xs ≡ true
    → length xs < bound
    → Found tcb p x xs t (find_before tcb bound p t)
unfolding find_before
find_before-Found tcb zero p x t xs c ne i lt = absurd (omega arith)
find_before-Found tcb (suc bound) p x t [] c ne i lt = cc
find_before-Found tcb (suc bound) p x t (y ∷ ys) (e, x0, out, (e', y0, out', c)) ne i lt =
    let p≡ : (p == 0) ≡ false = ground arith in
    let next≡ : (tcb p).next ≡ y = ap (λ z. (tcb z).next) e ∙ e' in
    elim (Bool-cases (y == t)) [
      | inl hit ↦
          let test : ((tcb p).next == t) ≡ true = ground arith in
          let t≡y : t ≡ y = ground arith in
          let gone : delete t (y ∷ ys) ≡ ys = rw (delete, t≡y) (ground arith) in
          rw (p≡, test)
            (record {
              inside = ground arith;
              before = ground arith;
              other = ground arith;
              turned = λ tcb' l same. rw gone (
                e,
                x0,
                ground arith,
                rw (ap (λ z. (tcb' z).next) (sym e) ∙ l ∙ ap (λ z. (tcb z).next) t≡y) (
                    Chain-frame tcb tcb' (tcb y).next ys c
                      (λ a j. same a (ground arith) (ground arith) (ground arith))),
              );
              ends = rw gone (rw (t≡y, e) (last_before x y ys out'));
            })
      | inr miss ↦
          let test : ((tcb p).next == t) ≡ false = ground arith in
          let keep : delete t (y ∷ ys) ≡ y ∷ delete t ys = ground arith in
          let rec =
            find_before-Found tcb bound (tcb p).next y t ys (next≡, y0, out', c) (ground arith)
              (ground arith) (omega arith) in
          let tracker : ℕ = find_before tcb bound (tcb p).next t in
          rw (p≡, test)
            (record {
              inside = ground (arith, rec.inside);
              before = rec.before;
              other = rec.other;
              turned = λ tcb' l same.
                  let x≢ : x ≢ tracker =
                    λ eq. ground (arith, rec.inside, ap (λ z. mem z (y ∷ ys)) eq) in
                  let at : (tcb' x).next ≡ (tcb p).next =
                    same x (ground arith) (ground arith) x≢ ∙ ap (λ z. (tcb z).next) (sym e) in
                  (
                    e,
                    x0,
                    mem-delete t x (y ∷ ys) out,
                    rw (at, keep) (rec.turned tcb' l (λ a j. same a (ground arith))),
                  );
              ends = rw keep rec.ends;
            })
    ]

-- On a well-formed queue, remove takes a task that is on the queue off it and leaves the order of
-- the others, given a round for each task.
pub remove-delete :
    {l : Links} (bound t : ℕ) (xs : List ℕ)
    → Holds l xs
    → mem t xs ≡ true
    → length xs ≤ bound
    → let (found, l') = remove bound l t in
      (found ≡ true) × Holds l' (delete t xs) × Spares xs l.tcb l'.tcb × ((l'.tcb t).next ≡ 0)
unfolding remove
remove-delete {l} bound t [] h i le = cc
remove-delete {l} bound t (x ∷ xs) h i le = elim (Bool-cases (t == l.first)) [
  | inl head ↦
      let t≡x : t ≡ x = ground (arith, h.chain) in
      let (e, kept, spares, off) = pop-cons x xs h in
      let gone : delete t (x ∷ xs) ≡ xs = ground arith in
      let nonnull : not (t == 0) ≡ true = ground (arith, h.chain) in
      rw (head, nonnull, gone)
        (
          refl,
          kept,
          record { nexts = λ a out. spares.nexts a (ground arith); others = spares.others },
          ap (λ z. ((pop l).1.tcb z).next) t≡x ∙ off,
        )
  | inr later ↦
      let ne : t ≢ x = ground (arith, h.chain) in
      let found =
        find_before-Found l.tcb bound l.first x t xs h.chain ne (ground arith) (omega arith) in
      let tracker : ℕ = find_before l.tcb bound l.first t in
      let null = not-mem-zero l.tcb l.first (x ∷ xs) h.chain in
      let some_ : (tracker == 0) ≡ false =
        ground (arith, found.inside, ap (λ z. mem z (x ∷ xs)) {x = tracker} {y = 0}) in
      let keep : delete t (x ∷ xs) ≡ x ∷ delete t xs = ground arith in
      let tcb' = put_next (put_next l.tcb tracker (l.tcb t).next) t 0 in
      rw (later, some_, keep)
        (
          refl,
          record {
            chain = found.turned tcb' (ground (arith, found.other)) (λ a j off off'. ground arith);
            ends = ap (λ z. if t == z then tracker else z) h.ends ∙ found.ends;
          },
          Spares-trans (put_next-Spares l.tcb tracker (l.tcb t).next)
              (put_next-Spares (put_next l.tcb tracker (l.tcb t).next) t 0)
              (λ a out. (
                ground (arith, found.inside, ap (λ z. mem z (x ∷ xs)) {x = a} {y = tracker}),
                ground (arith, ap (λ z. mem z (x ∷ xs)) {x = a} {y = t}),
              )),
          ground arith,
        )
]

-- A walk in search of a task that is not on the queue ends at NULL.
find_before-absent :
    (tcb : ℕ → Task) (bound p t : ℕ) (xs : List ℕ)
    → Chain tcb p xs
    → t ≢ 0
    → mem t xs ≡ false
    → find_before tcb bound p t ≡ 0
unfolding find_before
find_before-absent tcb zero p t xs c ne out = refl
find_before-absent tcb (suc bound) p t [] e ne out = ground arith
find_before-absent tcb (suc bound) p t (x ∷ []) (e, x0, fresh, c) ne out =
    ground (arith, find_before-absent tcb bound (tcb p).next t [], ap (λ z. (tcb z).next) e)
find_before-absent tcb (suc bound) p t (x ∷ y ∷ ys) (e, x0, fresh, c) ne out = ground (
  arith,
  find_before-absent tcb bound (tcb p).next t (y ∷ ys) (rw (ap (λ z. (tcb z).next) e) c) ne
      (ground arith),
  ap (λ z. (tcb z).next) e,
)

-- `remove` of a task that is not on the queue changes nothing.
pub remove-absent :
    {l : Links} (bound t : ℕ) (xs : List ℕ)
    → Holds l xs
    → t ≢ 0
    → mem t xs ≡ false
    → remove bound l t ≡ (false, l)
unfolding remove
remove-absent {l} bound t xs h ne out =
    let null = find_before-absent l.tcb bound l.first t xs h.chain ne out in
    let first : (t == l.first) ≡ false = head l.first xs h.chain out in rw (first, null)
  where
    head : (p : ℕ) (ys : List ℕ) → Chain l.tcb p ys → mem t ys ≡ false → (t == p) ≡ false
    head p [] c o = ground arith
    head p (y ∷ ys) c o = ground arith

-- Whatever the queue holds, `push` and `pop` write `next` fields only.
pub push-others :
    (l : Links) (y a : ℕ) → record ((push l y).tcb a) { next = 0 } ≡ record (l.tcb a) { next = 0 }
unfolding push
push-others l y a = ground arith
