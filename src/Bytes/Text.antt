-- ===== src/Bytes/Text.antt =====
-- What `strlen`, `strcmp` and `strncmp` of kernel/stdlib/string.c answer.
use toast_os.Prelude.{
  ℕ, zero, suc, ◌+◌, ◌-◌, ◌≡◌, ◌≢◌, refl, ap, ap₂, sym, ◌∙◌, true, false, List, [], ◌∷◌,
  if◌then◌else◌, ltb, ◌==◌, arith, not, ◌&&◌, length, Bool-cases, inl, inr, ◌↔◌, lt_or_le,
}
use toast_os.Prelude.Int.{pos, negsuc, pos_part}
use toast_os.Bytes.{strlen, strcmp, strncmp, difference}

-- From `p` the memory holds the characters `cs`, none of them NUL.
abbrev pub Chars : (ℕ → ℕ) → ℕ → List ℕ → Type 0
Chars m p [] = Unit
Chars m p (c ∷ cs) = (m p ≡ c) × (c ≢ 0) × Chars m (p + 1) cs

-- And the final NUL behind them.
abbrev pub Holds : (ℕ → ℕ) → ℕ → List ℕ → Type 0
Holds m p [] = m p ≡ 0
Holds m p (c ∷ cs) = (m p ≡ c) × (c ≢ 0) × Holds m (p + 1) cs

-- strlen counts the characters before the NUL, given a round for each and one more.
pub strlen_lem :
    (m : ℕ → ℕ) (p : ℕ) (cs : List ℕ) → Holds m p cs → strlen (suc (length cs)) m p ≡ length cs
unfolding strlen
strlen_lem m p [] nul = let test : not (m p == 0) ≡ false = ground arith in rw test refl
strlen_lem m p (c ∷ cs) (here, ne, rest) =
    let test : not (m p == 0) ≡ true = ground arith in
    rw test (ap suc (strlen_lem m (p + 1) cs rest))

strcmp-equal :
    (m : ℕ → ℕ) (a b : ℕ) (cs : List ℕ)
    → Holds m a cs
    → Holds m b cs
    → strcmp (suc (length cs)) m a b ≡ pos 0
unfolding strcmp
strcmp-equal m a b [] ha hb = ground arith
strcmp-equal m a b (c ∷ cs) (ha, ne, ta) (hb, _, tb) =
    let test : (not (m a == 0) && (m a == m b)) ≡ true = ground arith in
    rw test (strcmp-equal m (a + 1) (b + 1) cs ta tb)

difference-zero : (x y : ℕ) → difference x y ≡ pos 0 → x ≡ y
difference-zero x y e = elim (lt_or_le x y) [
  | inl lt ↦ ground arith
  | inr le ↦
      let test : ltb x y ≡ false = ground arith in
      let z : x - y ≡ 0 =
        ap pos_part (sym (ap (λ t. if t then negsuc (y - x - 1) else pos (x - y)) test) ∙ e) in
      omega (arith, z)
]

-- Where the loop of `strcmp` ends, it answers the difference of the two bytes.
strcmp-stop :
    (bound : ℕ) (m : ℕ → ℕ) (a b : ℕ)
    → (not (m a == 0) && (m a == m b)) ≡ false
    → strcmp bound m a b ≡ difference (m a) (m b)
unfolding strcmp
strcmp-stop zero m a b test = refl
strcmp-stop (suc bound) m a b test = rw test refl

strcmp-go :
    (bound : ℕ) (m : ℕ → ℕ) (a b : ℕ)
    → (not (m a == 0) && (m a == m b)) ≡ true
    → strcmp (suc bound) m a b ≡ strcmp bound m (a + 1) (b + 1)
unfolding strcmp
strcmp-go bound m a b test = rw test refl

strcmp-zero :
    (m : ℕ → ℕ) (a b : ℕ) (cs ds : List ℕ)
    → Holds m a cs
    → Holds m b ds
    → strcmp (suc (length cs)) m a b ≡ pos 0
    → cs ≡ ds
strcmp-zero m a b [] [] ha hb e = refl
strcmp-zero m a b [] (d ∷ ds) ha (hb, ne, tb) e =
    let same = difference-zero (m a) (m b) (sym (strcmp-stop 1 m a b (ground arith)) ∙ e) in
    absurd (ne (sym hb ∙ sym same ∙ ha))
strcmp-zero m a b (c ∷ cs) [] (ha, ne, ta) hb e =
    let stop : (not (m a == 0) && (m a == m b)) ≡ false = ground arith in
    let same =
      difference-zero (m a) (m b) (sym (strcmp-stop (suc (suc (length cs))) m a b stop) ∙ e) in
    absurd (ne (sym ha ∙ same ∙ hb))
strcmp-zero m a b (c ∷ cs) (d ∷ ds) (ha, nc, ta) (hb, nd, tb) e = elim (Bool-cases (c == d)) [
  | inl same ↦
      let go : (not (m a == 0) && (m a == m b)) ≡ true = ground arith in
      let heads : c ≡ d = ground arith in
      ap₂ (λ x l. x ∷ l) heads
        (strcmp-zero m (a + 1) (b + 1) cs ds ta tb (sym (strcmp-go (suc (length cs)) m a b go) ∙ e))
  | inr other ↦
      let stop : (not (m a == 0) && (m a == m b)) ≡ false = ground arith in
      let same =
        difference-zero (m a) (m b) (sym (strcmp-stop (suc (suc (length cs))) m a b stop) ∙ e) in
      absurd (ground arith)
]

-- strcmp answers 0 exactly if the two texts are the same, given a round for each character.
pub strcmp_lem :
    (m : ℕ → ℕ) (a b : ℕ) (cs ds : List ℕ)
    → Holds m a cs
    → Holds m b ds
    → (strcmp (suc (length cs)) m a b ≡ pos 0) ↔ (cs ≡ ds)
strcmp_lem m a b cs ds ha hb =
    (strcmp-zero m a b cs ds ha hb, λ e. strcmp-equal m a b cs ha (rw e hb))

-- Where `n` characters agree, `strncmp` goes on to answer the difference of the next two bytes,
-- which are no longer its concern.
pub strncmp-agree :
    (m : ℕ → ℕ) (a b : ℕ) (cs : List ℕ)
    → Chars m a cs
    → Chars m b cs
    → strncmp m a b (length cs) ≡ difference (m (a + length cs)) (m (b + length cs))
unfolding strncmp
strncmp-agree m a b [] ha hb = ap₂ difference (ap m (omega arith)) (ap m (omega arith))
strncmp-agree m a b (c ∷ cs) (ha, ne, ta) (hb, _, tb) =
    let test : (not (m a == 0) && (m a == m b)) ≡ true = ground arith in
    rw test (
      strncmp-agree m (a + 1) (b + 1) cs ta tb
      ∙ ap₂ difference (ap m (omega arith)) (ap m (omega arith)))

-- Where the first difference is at the last of the n characters, strncmp answers 0.
pub strncmp-last :
    (m : ℕ → ℕ) (a b : ℕ) (cs : List ℕ)
    → Chars m a cs
    → Chars m b cs
    → m (a + length cs) ≢ m (b + length cs)
    → strncmp m a b (suc (length cs)) ≡ pos 0
unfolding strncmp
strncmp-last m a b [] ha hb ne =
    let apart : m a ≢ m b = λ e. ne (ap m (omega arith) ∙ e ∙ ap m (omega arith)) in
    let test : (not (m a == 0) && (m a == m b)) ≡ false = ground arith in rw test refl
strncmp-last m a b (c ∷ cs) (ha, full, ta) (hb, _, tb) ne =
    let test : (not (m a == 0) && (m a == m b)) ≡ true = ground arith in
    rw test (
      strncmp-last m (a + 1) (b + 1) cs ta tb
        (λ e. ne (ap m (omega arith) ∙ e ∙ ap m (omega arith))))
