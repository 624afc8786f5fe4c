-- ===== src/Tasks/Links/Chain.antt =====
-- What a queue stands for: the list of the tasks on it.
use toast_os.Prelude.{
  ℕ, ◌≡◌, ◌≢◌, refl, ap, Bool, true, false, List, [], ◌∷◌, ◌++◌, ◌==◌, ◌||◌, arith,
}
use toast_os.Tasks.State.{Task}
use toast_os.Tasks.Links.{Links}

abbrev pub mem : ℕ → List ℕ → Bool
mem a [] = false
mem a (x ∷ xs) = (a == x) || mem a xs

-- The last element, `d` if there is none.
abbrev pub last_or : ℕ → List ℕ → ℕ
last_or d [] = d
last_or d (x ∷ xs) = last_or x xs

-- From `p` the `next` fields lead through the distinct tasks `xs` to NULL.
abbrev pub Chain : (ℕ → Task) → ℕ → List ℕ → Type 0
Chain tcb p [] = p ≡ 0
Chain tcb p (x ∷ xs) = (p ≡ x) × (x ≢ 0) × (mem x xs ≡ false) × Chain tcb (tcb x).next xs

-- A well-formed queue.
pub record Holds (l : Links) (xs : List ℕ) : Type 0 where
  pub chain : Chain l.tcb l.first xs
  pub ends : l.last ≡ last_or 0 xs

pub mem-append : (a : ℕ) (xs ys : List ℕ) → mem a (xs ++ ys) ≡ (mem a xs || mem a ys)
mem-append a [] ys = refl
mem-append a (x ∷ xs) ys = ground (arith, mem-append a xs ys)

pub last_or-mem : (x : ℕ) (xs : List ℕ) → mem (last_or x xs) (x ∷ xs) ≡ true
last_or-mem x [] = ground arith
last_or-mem x (y ∷ ys) = ground (arith, last_or-mem y ys)

pub last_or-append : (d y : ℕ) (xs : List ℕ) → last_or d (xs ++ y ∷ []) ≡ y
last_or-append d y [] = refl
last_or-append d y (x ∷ xs) = last_or-append x y xs

-- A chain survives any change that spares the `next` fields of its tasks.
pub Chain-frame :
    (tcb tcb' : ℕ → Task) (p : ℕ) (xs : List ℕ)
    → Chain tcb p xs
    → ((a : ℕ) → mem a xs ≡ true → (tcb' a).next ≡ (tcb a).next)
    → Chain tcb' p xs
Chain-frame tcb tcb' p [] c same = c
Chain-frame tcb tcb' p (x ∷ xs) (e, ne, out, c) same = (
  e,
  ne,
  out,
  rw (same x (ground arith))
      (Chain-frame tcb tcb' (tcb x).next xs c (λ a i. same a (ground arith))),
)

pub not-mem-zero : (tcb : ℕ → Task) (p : ℕ) (xs : List ℕ) → Chain tcb p xs → mem 0 xs ≡ false
not-mem-zero tcb p [] c = refl
not-mem-zero tcb p (x ∷ xs) (e, ne, out, c) = ground (arith, not-mem-zero tcb (tcb x).next xs c)

-- One more task behind the last.
pub Chain-snoc :
    (tcb tcb' : ℕ → Task) (p y x : ℕ) (xs : List ℕ)
    → Chain tcb p (x ∷ xs)
    → y ≢ 0
    → mem y (x ∷ xs) ≡ false
    → (tcb' y).next ≡ 0
    → (tcb' (last_or x xs)).next ≡ y
    → ((a : ℕ) → mem a (x ∷ xs) ≡ true → a ≢ last_or x xs → (tcb' a).next ≡ (tcb a).next)
    → Chain tcb' p ((x ∷ xs) ++ y ∷ [])
Chain-snoc tcb tcb' p y x [] (e, ne, out, c) y0 fresh ny nl same =
    (e, ne, ground arith, (nl, y0, refl, ny))
Chain-snoc tcb tcb' p y x (z ∷ zs) (e, ne, out, c) y0 fresh ny nl same =
    let x≢last : x ≢ last_or z zs = λ eq. ground (arith, last_or-mem z zs) in
    (
      e,
      ne,
      ground (arith, mem-append x (z ∷ zs) (y ∷ [])),
      rw (same x (ground arith) x≢last) (
          Chain-snoc tcb tcb' (tcb x).next y z zs c y0 (ground arith) ny nl
            (λ a i ne'. same a (ground arith) ne')),
    )

-- Between two stores only `next` fields differ, and those only at the tasks of `touched`.
pub record Spares (touched : List ℕ) (tcb tcb' : ℕ → Task) : Type 0 where
  pub nexts : (a : ℕ) → mem a touched ≡ false → (tcb' a).next ≡ (tcb a).next
  pub others : (a : ℕ) → record (tcb' a) { next = 0 } ≡ record (tcb a) { next = 0 }

module _ {touched : List ℕ} {tcb tcb' : ℕ → Task} (f : Spares touched tcb tcb') where
  pub state-spared : (a : ℕ) → (tcb' a).state ≡ (tcb a).state
  state-spared a = ap (λ (t : Task). t.state) (f.others a)

  pub wake-spared : (a : ℕ) → (tcb' a).wake_time ≡ (tcb a).wake_time
  wake-spared a = ap (λ (t : Task). t.wake_time) (f.others a)

  -- A queue that shares no task with the touched ones is as it was.
  pub Chain-spared :
      (p : ℕ) (xs : List ℕ)
      → Chain tcb p xs
      → ((a : ℕ) → mem a xs ≡ true → mem a touched ≡ false)
      → Chain tcb' p xs
  Chain-spared p xs c apart = Chain-frame tcb tcb' p xs c (λ a i. f.nexts a (apart a i))
