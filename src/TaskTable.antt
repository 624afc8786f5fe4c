-- ===== src/TaskTable.antt =====
-- kernel/multitasking/taskTable.c: a growing array of pointers, indexed by task id. NULL is 0.
--
-- An operation takes the interrupt lock's state and the table, and gives both back. What the heap
-- answers is an argument: `true` where `kmalloc` succeeds. `none` is a NULL table.
pub mod Laws
mod Tests
use toast_os.Prelude.{
  ℕ, zero, suc, ◌+◌, ◌-◌, ◌*◌, ◌≤◌, Bool, true, false, Option, none, some, List, [], ◌∷◌, ◌++◌, ltb,
  leb, ◌==◌, if◌then◌else◌, u64, get_or, set, take, replicate, not,
}
use toast_os.Irq.{Irq, lock_schedule, unlock_schedule}

abbrev init_cap_default : ℕ
init_cap_default = 4

pub record Table : Type 0 where
  pub slots : List ℕ
  pub cap : ℕ

-- The two `kmalloc`s may each fail.
pub task_table_init : ℕ → (got_table got_slots : Bool) → Option Table
task_table_init init_cap false got_slots = none
task_table_init init_cap true false = none
task_table_init init_cap true true =
    let cap = if init_cap == 0 then init_cap_default else init_cap in
    some (record { slots = replicate cap 0; cap = cap })

-- Copies the slots, fills the rest with NULL. The size in bytes, 8 for each slot, is taken not to wrap,
-- as it does from 2^61 slots on.
pub task_table_realloc : Table → ℕ → (got_memory : Bool) → Option Table
task_table_realloc table min_cap false = none
task_table_realloc table min_cap true =
    let doubled = u64 (table.cap * 2) in
    let new_cap = if ltb doubled min_cap then min_cap else doubled in
    some (record {
      slots = take table.cap table.slots ++ replicate (new_cap - table.cap) 0;
      cap = new_cap;
    })

-- The slots of a table that has room for `tid`: the first of the two guards.
grown : Table → ℕ → Bool → Option Table
grown table tid got_memory =
    if leb table.cap tid then task_table_realloc table (u64 (tid + 1)) got_memory else some table

-- `true` stands for the result 0, `false` for -1.
pub task_table_set :
    Irq → Option Table → (tid value : ℕ) → (got_memory : Bool) → Bool × Irq × Option Table
unfolding grown task_table_realloc
task_table_set irq none tid value got_memory = (false, irq, none)
task_table_set irq (some table) tid value got_memory =
    let irq' = unlock_schedule (lock_schedule irq) in
    elim (grown table tid got_memory) [
      | none ↦ (false, irq', some table)
      | some t ↦
          if not (get_or t.slots tid 0 == 0)
          then (false, irq', some t)
          else (true, irq', some (record t { slots = set t.slots tid value }))
    ]

pub task_table_get : Irq → Option Table → ℕ → ℕ × Irq
task_table_get irq none tid = (0, irq)
task_table_get irq (some table) tid =
    (if ltb tid table.cap then get_or table.slots tid 0 else 0, unlock_schedule (lock_schedule irq))

pub task_table_clear : Irq → Option Table → ℕ → Bool × Irq × Option Table
task_table_clear irq none tid = (false, irq, none)
task_table_clear irq (some table) tid =
    let irq' = unlock_schedule (lock_schedule irq) in
    if ltb tid table.cap
    then (true, irq', some (record table { slots = set table.slots tid 0 }))
    else (false, irq', some table)

-- The calls that `task_table_foreach` makes: index and value of each slot in use, in order.
visit : ℕ → List ℕ → List (ℕ × ℕ)
visit i [] = []
visit i (v ∷ vs) = let rest = visit (i + 1) vs in if not (v == 0) then (i, v) ∷ rest else rest

pub task_table_foreach : Irq → Option Table → List (ℕ × ℕ) × Irq
unfolding visit
task_table_foreach irq none = ([], irq)
task_table_foreach irq (some table) =
    (visit 0 (take table.cap table.slots), unlock_schedule (lock_schedule irq))

-- The calls of `kfree`: the slots, which stand at `slots`, and the table at `table`; 0 is NULL.
pub task_table_destroy : (table slots : ℕ) → List ℕ
task_table_destroy table slots = if table == 0 then [] else slots ∷ table ∷ []
