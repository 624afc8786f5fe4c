-- ===== src/Tasks/Links/Place.antt =====
-- Where a task goes in a queue that is in the order of the wake times.
use toast_os.Prelude.{
  ℕ, ◌≡◌, refl, ap, true, false, List, [], ◌∷◌, ◌==◌, ◌||◌, if◌then◌else◌, arith, All, ◌++◌, ◌<◌,
  ◌≤◌, inl, inr, lt_or_le, ltb,
}
use toast_os.Tasks.Links.Chain.{mem}

module _ (wake : ℕ → ℕ) where
  abbrev pub place : ℕ → List ℕ → List ℕ
  place y [] = y ∷ []
  place y (x ∷ xs) = if ltb (wake y) (wake x) then y ∷ x ∷ xs else x ∷ place y xs

  -- No task wakes before the one ahead of it.
  abbrev pub SortedFrom : ℕ → List ℕ → Type 0
  SortedFrom t [] = Unit
  SortedFrom t (x ∷ xs) = (t ≤ wake x) × SortedFrom (wake x) xs

  pub place-Sorted :
      (t y : ℕ) (xs : List ℕ) → SortedFrom t xs → t ≤ wake y → SortedFrom t (place y xs)
  place-Sorted t y [] s le = (le, tt)
  place-Sorted t y (x ∷ xs) s le = elim (lt_or_le (wake y) (wake x)) [
    | inl lt ↦
        let test : ltb (wake y) (wake x) ≡ true = ground arith in rw test (le, (omega arith, s.1))
    | inr ge ↦
        let test : ltb (wake y) (wake x) ≡ false = ground arith in
        rw test (s.0, place-Sorted (wake x) y xs s.1 ge)
  ]

  -- The sleepers that wake no later at the front of the queue, and those behind them.
  abbrev pub cut_before : ℕ → List ℕ → List ℕ
  cut_before y [] = []
  cut_before y (x ∷ xs) =
      let rest = cut_before y xs in if ltb (wake y) (wake x) then [] else x ∷ rest

  abbrev pub cut_after : ℕ → List ℕ → List ℕ
  cut_after y [] = []
  cut_after y (x ∷ xs) = let rest = cut_after y xs in if ltb (wake y) (wake x) then x ∷ xs else rest

  All-later : (y t : ℕ) (xs : List ℕ) → SortedFrom t xs → wake y < t → All (λ a. wake y < wake a) xs
  All-later y t [] s lt = tt
  All-later y t (x ∷ xs) s lt = (omega arith, All-later y (wake x) xs s.1 (omega arith))

  pub cut :
      (y t : ℕ) (xs : List ℕ)
      → SortedFrom t xs
      → (xs ≡ cut_before y xs ++ cut_after y xs)
        × (place y xs ≡ cut_before y xs ++ y ∷ cut_after y xs)
        × All (λ a. wake a ≤ wake y) (cut_before y xs)
        × All (λ a. wake y < wake a) (cut_after y xs)
  cut y t [] s = (refl, refl, tt, tt)
  cut y t (x ∷ xs) s = elim (lt_or_le (wake y) (wake x)) [
    | inl lt ↦
        let test : ltb (wake y) (wake x) ≡ true = ground arith in
        rw test (refl, refl, tt, (lt, All-later y (wake x) xs s.1 lt))
    | inr ge ↦
        let test : ltb (wake y) (wake x) ≡ false = ground arith in
        let (split, at, no_later, later) = cut y (wake x) xs s.1 in
        rw test (ap (λ l. x ∷ l) split, ap (λ l. x ∷ l) at, (ge, no_later), later)
  ]

  pub mem-place : (a y : ℕ) (xs : List ℕ) → mem a (place y xs) ≡ ((a == y) || mem a xs)
  mem-place a y [] = refl
  mem-place a y (x ∷ xs) = ground (arith, mem-place a y xs)
