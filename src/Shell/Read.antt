-- ===== src/Shell/Read.antt =====
-- A whole line through the editor, and the history behind it.
use mathlib.Core.Path.{subst}
use toast_os.Prelude.{
  ℕ, suc, ◌+◌, ◌-◌, ◌%◌, ◌≤◌, ◌<◌, ◌≡◌, refl, ◌∙◌, ap, sym, Bool, true, false, some, List, [], ◌∷◌,
  ◌++◌, ◌==◌, if◌then◌else◌, not, ◌||◌, arith, inl, inr, Bool-cases, get_or, set, length, replicate,
  All, get_or-set_self,
}
use toast_os.Shell.{
  Shell, text, copy_string, entry, update_history, get_prev_cmd, readline, read_loop, Mode.plain,
  key,
}
use toast_os.Shell.Line.{
  before, before-entry, get_prev_cmd-Holds, Holds, edit, plain-Holds, set-end, text-copy_string,
}

-- Keys that neither end the line nor begin an escape sequence.
abbrev pub ordinary : ℕ → Bool
ordinary c = not ((c == 10) || (c == 13) || (c == 27))

-- The line that such keys make of `line`.
abbrev pub typed : (keys line : List ℕ) → List ℕ
typed [] line = line
typed (c ∷ cs) line = typed cs (edit [] [] plain c line)

stays_plain : (c : ℕ) (s : Shell) → ordinary c ≡ true → (key plain c s).0 ≡ plain
unfolding key
stays_plain c s o = elim (Bool-cases (c == 9)) [
  | inl tab ↦ rw tab refl
  | inr not_tab ↦ elim (Bool-cases (c == 8)) [
    | inl rub ↦ rw (not_tab, rub) refl
    | inr not_rub ↦
        let other : (c == 27) ≡ false = ground (arith, o) in rw (not_tab, not_rub, other) refl
  ]
]

read_loop-typed :
    (keys rest : List ℕ) (s : Shell) (line : List ℕ)
    → All (λ c. ordinary c ≡ true) keys
    → Holds s line
    → (s' : Shell) × (read_loop (keys ++ 10 ∷ rest) plain s ≡ some (s', rest))
      × Holds s' (typed keys line)
unfolding read_loop
read_loop-typed [] rest s line o h =
    let n : ℕ = 255 - length line in
    let room : 256 - length line ≡ suc n = omega (arith, h.short) in
    (
      _,
      refl,
      record {
        short = h.short;
        at_end = h.at_end;
        bytes =
            ap (λ i. set s.buf i 0) h.at_end
            ∙ ap (λ b. set b (length line) 0) h.bytes
            ∙ ap (λ m. set (line ++ replicate m 0) (length line) 0) room
            ∙ set-end line n 0
            ∙ ap (λ m. line ++ replicate m 0) (sym room);
      },
    )
read_loop-typed (c ∷ keys) rest s line (o, os) h =
    let stay = stays_plain c s o in
    let goes_on : ((c == 10) || (c == 13)) ≡ false = ground (arith, o) in
    let (s', eq, h') =
      read_loop-typed keys rest (key plain c s).1 (edit [] [] plain c line) os
        (plain-Holds c s line [] [] h) in
    (s', rw (goes_on, stay) eq, h')

-- On any keys that neither end the line nor begin an escape sequence, followed by a newline,
-- readline returns, leaves the keys after the newline, and the buffer holds the line that the keys
-- make.
pub readline-typed :
    (keys rest : List ℕ) (s : Shell)
    → All (λ c. ordinary c ≡ true) keys
    → (s' : Shell) × (readline (keys ++ 10 ∷ rest) s ≡ some (s', rest)) × Holds s' (typed keys [])
unfolding readline
readline-typed keys rest s o =
    read_loop-typed keys rest (record s { buf = replicate 256 0; buf_index = 0 }) [] o
      (record { short = omega arith; at_end = refl; bytes = refl })

first_char : (line : List ℕ) → 0 < length (text line) → (get_or line 0 0 == 0) ≡ false
first_char [] pos = absurd (omega (arith, pos))
first_char (c ∷ cs) pos = elim (Bool-cases (c == 0)) [
  | inl nul ↦
      absurd (omega (arith, ap (λ b. length (if b then [] else c ∷ text cs)) (sym nul), pos))
  | inr more ↦ more
]

-- With the history's eight entries of 256 bytes, after update_history of a line that is not empty
-- and has at most 255 characters, the arrow up brings back that line, also where the ring of
-- entries wraps.
pub get_prev_cmd-update_history :
    (s : Shell) (line : List ℕ)
    → length s.cmd_history ≡ 8
    → length (entry s (s.history_count % 8)) ≡ 256
    → 0 < length (text line)
    → length (text line) ≤ 255
    → length (text line) < length line
    → Holds (get_prev_cmd (update_history s line)) (text line)
unfolding update_history
get_prev_cmd-update_history s line eight wide some' short ends =
    let i : ℕ = s.history_count % 8 in
    let e : List ℕ = copy_string line (entry s i) in
    let s1 : Shell = update_history s line in
    let filled = first_char line some' in
    let index : s1.prev_command_index ≡ (s.history_count + 1) % 8 =
      rw (filled, update_history) refl in
    let history : s1.cmd_history ≡ set s.cmd_history i e = rw (filled, update_history) refl in
    let at : entry s1 i ≡ e =
      ap (λ h. get_or h i []) history
      ∙ get_or-set_self s.cmd_history i e [] (omega (arith, eight)) in
    let same : text e ≡ text line =
      text-copy_string line (entry s i) ends (omega (arith, wide, short)) in
    let back : before s1 ≡ text line =
      before-entry s1 i e (omega (arith, index)) at (ground (arith, ap length same, some'))
      ∙ same in
    subst (Holds (get_prev_cmd s1)) back
      (get_prev_cmd-Holds s1 (omega (arith, ap length back, short)))
