-- ===== src/Shell/Words.antt =====
-- The words that `parse_args` finds.
use mathlib.Core.Path.{subst}
use toast_os.Prelude.{
  append-nil, append_assoc, ℕ, zero, suc, ◌+◌, ◌-◌, ◌≤◌, ◌<◌, ◌≡◌, refl, ◌∙◌, ap, ap₂, sym, Bool,
  true, false, List, [], ◌∷◌, ◌++◌, ◌==◌, if◌then◌else◌, arith, inl, inr, Bool-cases, All, drop,
  take,
}
use toast_os.Shell.{text}
use toast_os.Shell.Args.{split, parse_args}

-- The first word of a text that begins with one, and what follows the space behind it.
abbrev pub first_word : List ℕ → List ℕ
first_word [] = []
first_word (c ∷ cs) = if c == 32 then [] else c ∷ first_word cs

abbrev pub after_word : List ℕ → List ℕ
after_word [] = []
after_word (c ∷ cs) = if c == 32 then cs else after_word cs

-- The words of a text, between spaces; `word` is what has been read of the first.
abbrev pub words : (word s : List ℕ) → List (List ℕ)
words [] [] = []
words (w ∷ ws) [] = (w ∷ ws) ∷ []
words [] (c ∷ cs) = if c == 32 then words [] cs else words (c ∷ []) cs
words (w ∷ ws) (c ∷ cs) = if c == 32 then (w ∷ ws) ∷ words [] cs else words ((w ∷ ws) ++ c ∷ []) cs

words-word :
    (w : ℕ) (ws s : List ℕ)
    → words (w ∷ ws) s ≡ ((w ∷ ws) ++ first_word s) ∷ words [] (after_word s)
words-word w ws [] = ap (λ l. (w ∷ l) ∷ []) (sym (append-nil ws))
words-word w ws (c ∷ cs) = elim (Bool-cases (c == 32)) [
  | inl space ↦ rw space (ap (λ l. (w ∷ l) ∷ words [] cs) (sym (append-nil ws)))
  | inr more ↦ rw more (
      words-word w (ws ++ c ∷ []) cs
      ∙ ap (λ l. (w ∷ l) ∷ words [] (after_word cs)) (append_assoc ws (c ∷ []) (first_word cs)))
]

-- The strings that the offsets point at, in an array whose first character has the offset `p`.
abbrev pub strings : (p : ℕ) → List ℕ → (array : List ℕ) → List (List ℕ)
strings p [] array = []
strings p (o ∷ os) array = text (drop (o - p) array) ∷ strings p os array

strings-cons :
    (p c : ℕ) (os array : List ℕ)
    → All (λ o. p + 1 ≤ o) os
    → strings p os (c ∷ array) ≡ strings (p + 1) os array
strings-cons p c [] array above = refl
strings-cons p c (o ∷ os) array (here, there) =
    let n : ℕ = o - (p + 1) in
    let e : o - p ≡ suc n = omega (arith, here) in
    rw e (ap (λ l. text (drop n array) ∷ l) (strings-cons p c os array there))

module _ (tail : List ℕ) where
  above :
      (inside : Bool) (left p q : ℕ) (s : List ℕ)
      → q ≤ p
      → All (λ o. q ≤ o) (split inside left p (s ++ 0 ∷ tail)).0
  unfolding split
  above false left p q [] le = tt
  above true left p q [] le = tt
  above false left p q (c ∷ s) le = elim (Bool-cases (c == 32)) [
    | inl space ↦ rw space (above false left (p + 1) q s (omega (arith, le)))
    | inr other ↦ elim (Bool-cases (c == 0)) [
      | inl end ↦ rw (other, end) tt
      | inr word ↦ rw (other, word) (le, above true (left - 1) (p + 1) q s (omega (arith, le)))
    ]
  ]
  above true left p q (c ∷ s) le = elim (Bool-cases (c == 0)) [
    | inl end ↦ rw end tt
    | inr on ↦ elim (Bool-cases (c == 32)) [
      | inr word ↦ rw (on, word) (above true left (p + 1) q s (omega (arith, le)))
      | inl space ↦ elim (Bool-cases (left == 0)) [
        | inl full ↦ rw (on, space, full) tt
        | inr room ↦ rw (on, space, room) (above false left (p + 1) q s (omega (arith, le)))
      ]
    ]
  ]

  -- What the loops do between words, and inside one.
  abbrev Outside : (left p : ℕ) → List ℕ → Type 0
  Outside left p s =
      strings p (split false (suc left) p (s ++ 0 ∷ tail)).0
        (split false (suc left) p (s ++ 0 ∷ tail)).1
      ≡ take (suc left) (words [] s)

  abbrev Inside : (left p : ℕ) → List ℕ → Type 0
  Inside left p s =
      (text (split true left p (s ++ 0 ∷ tail)).1 ≡ first_word s)
      × (strings p (split true left p (s ++ 0 ∷ tail)).0 (split true left p (s ++ 0 ∷ tail)).1
          ≡ take left (words [] (after_word s)))

  Outside-cons :
      (left p c : ℕ) (s : List ℕ)
      → (c == 0) ≡ false
      → Outside left (p + 1) s
      → Inside left (p + 1) s
      → Outside left p (c ∷ s)
  unfolding split
  Outside-cons left p c s on out (txt, str) = elim (Bool-cases (c == 32)) [
    | inl space ↦
        rw space
          (strings-cons p c _ _ (above false (suc left) (p + 1) (p + 1) s (omega arith)) ∙ out)
    | inr word ↦
        let less : suc left - 1 ≡ left = omega arith in
        let start : p - p ≡ 0 = omega arith in
        rw (word, on, less, start, words-word c [] s)
          (ap₂ (λ a l. a ∷ l) (rw on (ap (λ l. c ∷ l) txt))
            (strings-cons p c _ _ (above true left (p + 1) (p + 1) s (omega arith)) ∙ str))
  ]

  Inside-cons :
      (left p c : ℕ) (s : List ℕ)
      → (c == 0) ≡ false
      → Outside (left - 1) (p + 1) s
      → Inside left (p + 1) s
      → Inside left p (c ∷ s)
  unfolding split
  Inside-cons left p c s on out (txt, str) = elim (Bool-cases (c == 32)) [
    | inr word ↦
        rw (on, word)
          (
            rw on (ap (λ l. c ∷ l) txt),
            strings-cons p c _ _ (above true left (p + 1) (p + 1) s (omega arith)) ∙ str,
          )
    | inl space ↦ elim (Bool-cases (left == 0)) [
      | inl full ↦
          let zero' : left ≡ 0 = ground (arith, full) in rw (on, space, full, zero') (refl, refl)
      | inr room ↦
          let one_more : suc (left - 1) ≡ left = ground (arith, room) in
          let out' =
            subst
              (λ n.
                strings (p + 1) (split false n (p + 1) (s ++ 0 ∷ tail)).0
                  (split false n (p + 1) (s ++ 0 ∷ tail)).1
                ≡ take n (words [] s))
              one_more out in
          rw (on, space, room)
            (refl, strings-cons p 0 _ _ (above false left (p + 1) (p + 1) s (omega arith)) ∙ out')
    ]
  ]

  take-nil : (n : ℕ) → take n (words [] []) ≡ []
  take-nil zero = refl
  take-nil (suc n) = refl

  split-words :
      (s : List ℕ)
      → All (λ c. (c == 0) ≡ false) s
      → (left p : ℕ) → Outside left p s × Inside left p s
  unfolding split
  split-words [] some' left p = (refl, (refl, sym (take-nil left)))
  split-words (c ∷ s) (on, some') left p = (
    Outside-cons left p c s on (split-words s some' left (p + 1)).0
        (split-words s some' left (p + 1)).1,
    Inside-cons left p c s on (split-words s some' (left - 1) (p + 1)).0
        (split-words s some' left (p + 1)).1,
  )

-- On a text without a NUL, followed by one, and with a place or more in argv, parse_args leaves in
-- argv the addresses of the words of the text between its spaces, in their order, as many as argv
-- has places for; each is a NUL-terminated string of the array as parse_args leaves it.
pub parse_args-words :
    (s tail : List ℕ) (max_args : ℕ)
    → All (λ c. (c == 0) ≡ false) s
    → 0 < max_args
    → let (argv, line) = parse_args (s ++ 0 ∷ tail) max_args in
      strings 0 argv line ≡ take max_args (words [] s)
unfolding parse_args
parse_args-words s tail zero some' pos = absurd (omega (arith, pos))
parse_args-words s tail (suc n) some' pos = (split-words tail s some' n 0).0
