-- ===== src/Tasks/Pids/Laws.antt =====
-- Which pids `pid_alloc` of kernel/multitasking/pidTable.c gives out.
use toast_os.Prelude.{
  ℕ, ◌+◌, ◌^◌, ◌<◌, ◌≡◌, ◌≢◌, refl, true, false, List, [], ◌∷◌, map, ◌==◌, arith, u64, Bool-cases,
  inl, inr,
}
use toast_os.Irq
use toast_os.Tasks.State.{Kernel}
use toast_os.Tasks.Links.Chain.{mem}
use toast_os.Tasks.Sched.{lock_schedule, unlock_schedule}
use toast_os.Tasks.Pids.{pid_alloc, pid_release, take_pid}

-- A pid that is given back, with memory for its node, is the next that is given out, and its node
-- is freed; the kernel is else as before.
pub pid_alloc-pid_release :
    (k : Kernel) (pid node : ℕ)
    → Irq.IsValid k.irq
    → node ≢ 0
    → pid_alloc (pid_release k pid node) ≡ (pid, record k { freed = node ∷ k.freed })
unfolding pid_alloc pid_release lock_schedule unlock_schedule take_pid
pid_alloc-pid_release k pid node v some =
    let test : (node == 0) ≡ false = ground arith in
    rw (test, Irq.unlock_schedule-lock_schedule v, Irq.unlock_schedule-lock_schedule v) refl

-- The free pids are distinct.
abbrev pub Distinct : List ℕ → Type 0
Distinct [] = Unit
Distinct (x ∷ xs) = (mem x xs ≡ false) × Distinct xs

abbrev pub free_pids : Kernel → List ℕ
free_pids k = map (λ e. e.1) k.free_pid_list

-- Of the pids below `next_greatest_pid`, those in `live` are in use and the free list has others.
pub record Accounts (k : Kernel) (live : List ℕ) : Type 0 where
  pub live_below : (p : ℕ) → mem p live ≡ true → p < k.next_greatest_pid
  pub free_below : (p : ℕ) → mem p (free_pids k) ≡ true → p < k.next_greatest_pid
  pub distinct : Distinct (free_pids k)
  pub apart : (p : ℕ) → mem p (free_pids k) ≡ true → mem p live ≡ false

-- The choice that `pid_alloc` makes.
taken :
    (k : Kernel) (live : List ℕ) (free : List (ℕ × ℕ))
    → Accounts (record k { free_pid_list = free }) live
    → k.next_greatest_pid + 1 < 2 ^ 64
    → k.free_pid_list ≡ free
    → (mem (take_pid k free).0 live ≡ false)
      × Accounts (take_pid k free).1 ((take_pid k free).0 ∷ live)
unfolding take_pid unlock_schedule
taken k live [] a room is =
    let next : u64 (k.next_greatest_pid + 1) ≡ k.next_greatest_pid + 1 = omega arith in
    (
      elim (Bool-cases (mem k.next_greatest_pid live)) [
        | inl used ↦ ground (arith, a.live_below k.next_greatest_pid used)
        | inr free ↦ free
      ],
      rw (is, next)
          (record {
            live_below = λ p i. elim (Bool-cases (mem p live)) [
              | inl used ↦ ground (arith, a.live_below p used)
              | inr free ↦ ground arith
            ];
            free_below = λ p i. ground arith;
            distinct = tt;
            apart = λ p i. ground arith;
          }),
    )
taken k live ((node, pid) ∷ free) a room is =
    let (out, rest) = a.distinct in
    (
      a.apart pid (ground arith),
      record {
        live_below = λ p i. elim (Bool-cases (p == pid)) [
          | inl same ↦ ground (arith, a.free_below pid)
          | inr other ↦ a.live_below p (ground arith)
        ];
        free_below = λ p i. a.free_below p (ground arith);
        distinct = rest;
        apart = λ p i. elim (Bool-cases (p == pid)) [
          | inl same ↦ ground arith
          | inr other ↦ ground (arith, a.apart p)
        ];
      },
    )

-- pid_alloc never gives out a pid that is in use, and the accounts of pids stay in order, as long
-- as the pids have not come to the end of their 64 bits.
pub pid_alloc_fresh :
    (k : Kernel) (live : List ℕ)
    → Accounts k live
    → k.next_greatest_pid + 1 < 2 ^ 64
    → (mem (pid_alloc k).0 live ≡ false) × Accounts (pid_alloc k).1 ((pid_alloc k).0 ∷ live)
unfolding pid_alloc lock_schedule
pid_alloc_fresh k live a room =
    let a' : Accounts (lock_schedule k) live = record {
      live_below = a.live_below;
      free_below = a.free_below;
      distinct = a.distinct;
      apart = a.apart;
    } in
    taken (lock_schedule k) live k.free_pid_list a' room refl
