-- ===== src/TaskTable/Laws.antt =====
-- A task table as a finite map from task ids to pointers.
use toast_os.Prelude.{
  Option, Option-cases, ℕ, zero, suc, ◌+◌, ◌-◌, ◌*◌, ◌^◌, ◌≤◌, ◌<◌, ◌≡◌, refl, ◌≢◌, ◌∙◌, ap, Bool,
  true, false, none, some, List, [], ◌∷◌, ◌++◌, ltb, leb, ◌==◌, if◌then◌else◌, u64, get_or, set,
  take, replicate, length, length-append, length-replicate, length-set, get_or-set_self,
  get_or-set_ne, arith, inl, inr, lt_or_le, Bool-cases, get_or-past, get_or-replicate,
}
use toast_os.Irq.{Irq}
use toast_os.Irq
use toast_os.TaskTable.{
  Table, task_table_realloc, task_table_set, task_table_get, task_table_clear, grown,
}

pub record IsValid (t : Table) : Type 0 where
  pub sized : t.cap ≡ length t.slots
  pub nonempty : 0 < t.cap
  pub fits : t.cap < 2 ^ 62

-- What the table holds at an id: NULL where it has no slot.
abbrev pub at : Table → ℕ → ℕ
at t tid = get_or t.slots tid 0

take-all {ℓ} : {A : Type ℓ} (xs : List A) (n : ℕ) → n ≡ length xs → take n xs ≡ xs
take-all [] zero e = refl
take-all [] (suc n) e = refl
take-all (x ∷ xs) zero e = absurd (omega arith)
take-all (x ∷ xs) (suc n) e = ap (λ l. x ∷ l) (take-all xs n (omega arith))

get_or-append_zeros : (xs : List ℕ) (n i : ℕ) → get_or (xs ++ replicate n 0) i 0 ≡ get_or xs i 0
get_or-append_zeros [] n i = get_or-replicate {A = ℕ} n i 0
get_or-append_zeros (x ∷ xs) n zero = refl
get_or-append_zeros (x ∷ xs) n (suc i) = get_or-append_zeros xs n i

-- A table with room for an id: valid, with the same contents.
record Room (t : Table) (tid : ℕ) (r : Table) : Type 0 where
  valid : IsValid r
  room : tid < r.cap
  same : (i : ℕ) → at r i ≡ at t i

realloc-Room :
    {t : Table} (tid : ℕ)
    → IsValid t
    → t.cap ≤ tid
    → tid + 1 < 2 ^ 61
    → (r : Table) × (task_table_realloc t (tid + 1) true ≡ some r) × Room t tid r
unfolding task_table_realloc
realloc-Room {t} tid v past small =
    let doubled : u64 (t.cap * 2) ≡ t.cap * 2 = omega arith in
    let new : ℕ = if ltb (t.cap * 2) (tid + 1) then tid + 1 else t.cap * 2 in
    let all = take-all t.slots t.cap v.sized in
    let size : t.cap + (new - t.cap) ≡ new = ground arith in
    let r : Table = record { slots = t.slots ++ replicate (new - t.cap) 0; cap = new } in
    (
      r,
      rw (doubled, all),
      record {
        valid = record {
          sized = omega (
            arith,
            length-append t.slots (replicate (new - t.cap) 0),
            length-replicate {A = ℕ} (new - t.cap) 0,
            v.sized,
            size,
          );
          nonempty = ground (arith, v.nonempty);
          fits = ground (arith, small, v.fits, past);
        };
        room = ground arith;
        same = λ i. get_or-append_zeros t.slots (new - t.cap) i;
      },
    )

grown-Room :
    {t : Table} (tid : ℕ)
    → IsValid t
    → tid + 1 < 2 ^ 61
    → (r : Table) × (grown t tid true ≡ some r) × Room t tid r
unfolding grown
grown-Room {t} tid v small = elim (lt_or_le tid t.cap) [
  | inl lt ↦
      let test : leb t.cap tid ≡ false = ground arith in
      (t, rw test, record { valid = v; room = lt; same = λ i. refl })
  | inr le ↦
      let test : leb t.cap tid ≡ true = ground arith in
      let wrap : u64 (tid + 1) ≡ tid + 1 = omega arith in
      let (r, e, room) = realloc-Room tid v le small in (r, rw (test, wrap) e, room)
]

module _ {irq : Irq} {t : Table} (vi : Irq.IsValid irq) (v : IsValid t) (tid : ℕ) where
  -- On a valid table, registering a pointer at an id that is not in use, and below 2 ^ 61,
  -- succeeds if memory is given: the table then holds it there and is unchanged elsewhere, stays
  -- valid, and the interrupt lock is as before.
  pub task_table_set-free :
      (value : ℕ)
      → tid + 1 < 2 ^ 61
      → at t tid ≡ 0
      → (r : Table) × (task_table_set irq (some t) tid value true ≡ (true, irq, some r))
        × IsValid r
        × ((i : ℕ) → at r i ≡ (if i == tid then value else at t i))
  unfolding task_table_set
  task_table_set-free value small free =
      let (g, e, room) = grown-Room tid v small in
      let empty : at g tid ≡ 0 = room.same tid ∙ free in
      let inside : tid < length g.slots = omega (arith, room.room, room.valid.sized) in
      (
        record g { slots = set g.slots tid value },
        rw (e, task_table_set) (rw (empty, Irq.unlock_schedule-lock_schedule vi)),
        record {
          sized = room.valid.sized ∙ ap (λ n. n) (omega (arith, length-set g.slots tid value));
          nonempty = room.valid.nonempty;
          fits = room.valid.fits;
        },
        λ i. elim (Bool-cases (i == tid)) [
          | inl same ↦
              let e' : i ≡ tid = ground arith in
              rw (same, e') (get_or-set_self g.slots tid value 0 inside)
          | inr other ↦ rw other (get_or-set_ne g.slots tid i value 0 (ground arith) ∙ room.same i)
        ],
      )

  -- On a valid table, an id that is in use is refused, and nothing changes.
  pub task_table_set-taken :
      (value : ℕ) (got_memory : Bool)
      → at t tid ≢ 0
      → task_table_set irq (some t) tid value got_memory ≡ (false, irq, some t)
  unfolding task_table_set grown
  task_table_set-taken value got_memory taken =
      let inside : leb t.cap tid ≡ false = elim (lt_or_le tid t.cap) [
        | inl lt ↦ ground arith
        | inr le ↦ absurd (taken (get_or-past t.slots tid 0 (omega (arith, v.sized))))
      ] in
      let test : (at t tid == 0) ≡ false = ground arith in
      let e : grown t tid got_memory ≡ some t = rw (grown, inside) in
      rw (e, task_table_set) (rw (test, Irq.unlock_schedule-lock_schedule vi))

  -- On a valid table, when the array has to grow and memory is refused, the call fails and nothing
  -- changes.
  pub task_table_set-no_memory :
      (value : ℕ) → t.cap ≤ tid → task_table_set irq (some t) tid value false ≡ (false, irq, some t)
  unfolding task_table_set grown task_table_realloc
  task_table_set-no_memory value past =
      let test : leb t.cap tid ≡ true = ground arith in
      let e : grown t tid false ≡ none = rw (grown, test) in
      rw (e, task_table_set) (rw (Irq.unlock_schedule-lock_schedule vi))

  pub task_table_get_lem : task_table_get irq (some t) tid ≡ (at t tid, irq)
  unfolding task_table_get
  task_table_get_lem = rw (Irq.unlock_schedule-lock_schedule vi) (elim (lt_or_le tid t.cap) [
    | inl lt ↦ ground arith
    | inr le ↦ ground (arith, get_or-past t.slots tid 0 (omega (arith, v.sized)))
  ])

  -- On a valid table, after a clear the id holds NULL and the others what they held; the call
  -- fails past the end.
  pub task_table_clear_lem :
      (r : Table) × (task_table_clear irq (some t) tid ≡ (ltb tid t.cap, irq, some r))
      × IsValid r
      × ((i : ℕ) → at r i ≡ (if i == tid then 0 else at t i))
  unfolding task_table_clear
  task_table_clear_lem = elim (lt_or_le tid t.cap) [
    | inl lt ↦
        let test : ltb tid t.cap ≡ true = ground arith in
        (
          record t { slots = set t.slots tid 0 },
          rw (task_table_clear, test) (rw (Irq.unlock_schedule-lock_schedule vi)),
          record {
            sized = omega (arith, v.sized, length-set t.slots tid 0);
            nonempty = v.nonempty;
            fits = v.fits;
          },
          λ i. elim (Bool-cases (i == tid)) [
            | inl same ↦
                let e : i ≡ tid = ground arith in
                rw (same, e) (get_or-set_self t.slots tid 0 0 (omega (arith, v.sized)))
            | inr other ↦ rw other (get_or-set_ne t.slots tid i 0 0 (ground arith))
          ],
        )
    | inr le ↦
        let test : ltb tid t.cap ≡ false = ground arith in
        (
          t,
          rw (task_table_clear, test) (rw (Irq.unlock_schedule-lock_schedule vi)),
          v,
          λ i. elim (Bool-cases (i == tid)) [
            | inl same ↦
                let e : i ≡ tid = ground arith in
                rw (same, e) (get_or-past t.slots tid 0 (omega (arith, v.sized)))
            | inr other ↦ rw other refl
          ],
        )
  ]

-- Registering leaves the interrupt lock as it was, whatever comes of it.
pub irq-task_table_set :
    (irq : Irq) (table : Option Table) (tid value : ℕ) (got_memory : Bool)
    → Irq.IsValid irq
    → (task_table_set irq table tid value got_memory).1 ≡ irq
unfolding task_table_set
irq-task_table_set irq none tid value got_memory vi = refl
irq-task_table_set irq (some table) tid value got_memory vi =
    elim (Option-cases (grown table tid got_memory)) [
      | inl e ↦ rw (task_table_set, e) (Irq.unlock_schedule-lock_schedule vi)
      | inr (t, e) ↦
          rw (task_table_set, e)
            (elim (Bool-cases (get_or t.slots tid 0 == 0)) [
              | inl free ↦ rw free (Irq.unlock_schedule-lock_schedule vi)
              | inr taken ↦ rw taken (Irq.unlock_schedule-lock_schedule vi)
            ])
    ]
