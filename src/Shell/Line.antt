-- ===== src/Shell/Line.antt =====
-- The line editor as what it is for: a line that grows, shrinks and is recalled.
use toast_os.Prelude.{
  ℕ, zero, suc, ◌+◌, ◌-◌, ◌%◌, ◌≤◌, ◌<◌, ◌≡◌, refl, ◌∙◌, ap, ap₂, sym, true, false, List, [], ◌∷◌,
  ◌++◌, ◌==◌, if◌then◌else◌, ltb, not, arith, inl, inr, Bool-cases, set, length, replicate,
  length-append, append_assoc, ◌⊎◌,
}
use toast_os.Shell.{
  Shell, text, copy_string, entry, history_max, get_prev_cmd, get_next_cmd, type_char, rub_out,
  restart_line, Mode, Mode.plain, Mode.escape, Mode.bracket, key,
}

-- Strings in arrays.
pub copy_string-replicate :
    (e : List ℕ) (n : ℕ)
    → length (text e) ≤ n
    → copy_string e (replicate n 0) ≡ text e ++ replicate (n - length (text e)) 0
copy_string-replicate [] zero le = refl
copy_string-replicate [] (suc n) le =
    let gap : suc n ≡ suc n - 0 = omega arith in ap (λ m. replicate m 0) gap
copy_string-replicate (c ∷ cs) zero le = elim (Bool-cases (c == 0)) [
  | inl nul ↦ rw nul refl
  | inr more ↦
      absurd (omega (arith, ap (λ b. length (if b then [] else c ∷ text cs)) (sym more), le))
]
copy_string-replicate (c ∷ cs) (suc n) le = elim (Bool-cases (c == 0)) [
  | inl nul ↦
      let z : c ≡ 0 = ground (arith, nul) in
      let gap : suc n - 0 ≡ suc n = omega arith in rw (nul, z, gap) refl
  | inr more ↦
      let fits : suc (length (text cs)) ≤ suc n = rw more at le in
      let ih = copy_string-replicate cs n (omega (arith, fits)) in
      let gap : suc n - suc (length (text cs)) ≡ n - length (text cs) = omega arith in
      rw (more, gap, ih) refl
]

pub text-padded : (e : List ℕ) (n : ℕ) → text (text e ++ replicate (suc n) 0) ≡ text e
text-padded [] n = refl
text-padded (c ∷ cs) n = elim (Bool-cases (c == 0)) [
  | inl nul ↦ rw nul refl
  | inr more ↦ rw (more, more, text-padded cs n) refl
]

pub text-copy_string :
    (b e : List ℕ)
    → length (text b) < length b
    → length (text b) < length e
    → text (copy_string b e) ≡ text b
text-copy_string b [] lb le = absurd (omega (arith, le))
text-copy_string [] (d ∷ ds) lb le = absurd (omega (arith, lb))
text-copy_string (c ∷ cs) (d ∷ ds) lb le = elim (Bool-cases (c == 0)) [
  | inl nul ↦ rw nul refl
  | inr more ↦
      let lb' : suc (length (text cs)) < suc (length cs) = rw more at lb in
      let le' : suc (length (text cs)) < suc (length ds) = rw more at le in
      rw (more, text-copy_string cs ds (omega (arith, lb')) (omega (arith, le'))) refl
]

-- Writing at the end of the line, and clearing its last character.
pub set-end :
    (line : List ℕ) (n c : ℕ)
    → set (line ++ replicate (suc n) 0) (length line) c ≡ line ++ c ∷ replicate n 0
set-end [] n c = refl
set-end (x ∷ line) n c = ap (λ l. x ∷ l) (set-end line n c)

pub set-last :
    (line : List ℕ) (n c : ℕ)
    → set ((line ++ c ∷ []) ++ replicate n 0) (length line) 0 ≡ line ++ replicate (suc n) 0
set-last [] n c = refl
set-last (x ∷ line) n c = ap (λ l. x ∷ l) (set-last line n c)

-- What the editor has: a line of at most 255 characters, and nothing behind it.
pub record Holds (s : Shell) (line : List ℕ) : Type 0 where
  pub short : length line ≤ 255
  pub at_end : s.buf_index ≡ length line
  pub bytes : s.buf ≡ line ++ replicate (256 - length line) 0

abbrev padded : List ℕ → List ℕ
padded line = line ++ replicate (256 - length line) 0

-- The arrows: a line from the history.
recalled :
    (s s' : Shell) (e : List ℕ)
    → length (text e) ≤ 255
    → s'.buf ≡ copy_string e (replicate 256 0)
    → s'.buf_index ≡ length (text (copy_string e (replicate 256 0)))
    → Holds s' (text e)
recalled s s' e le b i =
    let it = copy_string-replicate e 256 (omega (arith, le)) in
    let n : ℕ = 255 - length (text e) in
    let room : 256 - length (text e) ≡ suc n = omega (arith, le) in
    let same : text (copy_string e (replicate 256 0)) ≡ text e =
      ap text it ∙ ap (λ m. text (text e ++ replicate m 0)) room ∙ text-padded e n in
    record { short = le; at_end = i ∙ ap length same; bytes = b ∙ it }

-- The commands that are remembered fit a line.
abbrev pub Remembered : Shell → Type 0
Remembered s = (i : ℕ) → length (text (entry s i)) ≤ 255

-- The line that an arrow brings back.
abbrev pub before : Shell → List ℕ
before s =
    let prev_idx = (s.prev_command_index + history_max - 1) % history_max in
    let i =
      if not (length (text (entry s prev_idx)) == 0) then prev_idx else s.prev_command_index in
    text (entry s i)

abbrev pub later : Shell → List ℕ
later s = text (entry s ((s.prev_command_index + 1) % history_max))

pub before-entry :
    (s : Shell) (i : ℕ) (e : List ℕ)
    → (s.prev_command_index + history_max - 1) % history_max ≡ i
    → entry s i ≡ e
    → (length (text e) == 0) ≡ false
    → before s ≡ text e
before-entry s i e p at some' = rw (p, at, some') (ap text at)

pub get_prev_cmd-Holds : (s : Shell) → length (before s) ≤ 255 → Holds (get_prev_cmd s) (before s)
unfolding get_prev_cmd restart_line
get_prev_cmd-Holds s ok =
    let prev_idx : ℕ = (s.prev_command_index + history_max - 1) % history_max in
    let i : ℕ =
      if not (length (text (entry s prev_idx)) == 0) then prev_idx else s.prev_command_index in
    recalled s (get_prev_cmd s) (entry s i) ok refl refl

no_length : (l : List ℕ) → length l ≡ 0 → l ≡ []
no_length [] e = refl
no_length (x ∷ l) e = absurd (omega (arith, e))

pub get_next_cmd-Holds : (s : Shell) → Remembered s → Holds (get_next_cmd s) (later s)
unfolding get_next_cmd restart_line
get_next_cmd-Holds s ok =
    let next_idx : ℕ = (s.prev_command_index + 1) % history_max in
    let e : List ℕ = entry s next_idx in
    elim (Bool-cases (length (text e) == 0)) [
      | inl none' ↦
          let empty : text e ≡ [] = no_length (text e) (ground (arith, none')) in
          let zeros : copy_string e (replicate 256 0) ≡ replicate 256 0 =
            copy_string-replicate e 256 (omega (arith, ok next_idx))
            ∙ ap (λ l. l ++ replicate (256 - length l) 0) empty in
          recalled s (get_next_cmd s) e (ok next_idx) (rw (none', get_next_cmd) (sym zeros))
            (rw (none', get_next_cmd) (ap (λ l. length (text l)) (sym zeros)))
      | inr some' ↦
          recalled s (get_next_cmd s) e (ok next_idx) (rw (some', get_next_cmd) refl)
            (rw (some', get_next_cmd) refl)
    ]

-- Typing and rubbing out.
pub type_char-Holds :
    (c : ℕ) (s : Shell) (line : List ℕ)
    → Holds s line
    → Holds (type_char c s) (if ltb (length line) 255 then line ++ c ∷ [] else line)
unfolding type_char
type_char-Holds c s line h = elim (Bool-cases (ltb (length line) 255)) [
  | inr full ↦ let shut : ltb s.buf_index 255 ≡ false = rw h.at_end full in rw (full, shut) h
  | inl room ↦
      let lt : length line < 255 = ground (arith, room) in
      let n : ℕ = 255 - length line in
      let room' : 256 - length line ≡ suc n = omega (arith, lt) in
      let left : 256 - length (line ++ c ∷ []) ≡ n =
        omega (arith, lt, length-append line (c ∷ [])) in
      let free : ltb s.buf_index 255 ≡ true = rw h.at_end room in
      let put : (type_char c s).buf ≡ set s.buf s.buf_index c = rw (free, type_char) refl in
      let next : (type_char c s).buf_index ≡ s.buf_index + 1 = rw (free, type_char) refl in
      rw room (record {
        short = omega (arith, lt, length-append line (c ∷ []));
        at_end = omega (arith, next, h.at_end, length-append line (c ∷ []));
        bytes =
            put
            ∙ ap₂ (λ b i. set b i c) h.bytes h.at_end
            ∙ ap (λ m. set (line ++ replicate m 0) (length line) c) room'
            ∙ set-end line n c
            ∙ sym (append_assoc line (c ∷ []) (replicate n 0))
            ∙ ap (λ m. (line ++ c ∷ []) ++ replicate m 0) (sym left);
      })
]

abbrev pub init_of : List ℕ → List ℕ
init_of [] = []
init_of (x ∷ []) = []
init_of (x ∷ y ∷ ys) = x ∷ init_of (y ∷ ys)

last_or_none : (line : List ℕ) → (line ≡ []) ⊎ ((c : ℕ) × (line ≡ init_of line ++ c ∷ []))
last_or_none [] = inl refl
last_or_none (x ∷ []) = inr (x, refl)
last_or_none (x ∷ y ∷ ys) = elim (last_or_none (y ∷ ys)) [
  | inl none' ↦ inr (x, absurd (cc none'))
  | inr (c, e) ↦ inr (c, ap (λ l. x ∷ l) e)
]

pub rub_out-Holds : (s : Shell) (line : List ℕ) → Holds s line → Holds (rub_out s) (init_of line)
unfolding rub_out
rub_out-Holds s line h = elim (last_or_none line) [
  | inl none' ↦
      let z : ltb 0 s.buf_index ≡ false = rw (h.at_end, none') refl in
      rw (none', z, rub_out) (rw none' at h)
  | inr (c, e) ↦
      let i : List ℕ = init_of line in
      let size : length line ≡ length i + 1 =
        ap length e ∙ omega (arith, length-append i (c ∷ [])) in
      let open' : ltb 0 s.buf_index ≡ true = ground (arith, h.at_end, size) in
      let put : (rub_out s).buf ≡ set s.buf (s.buf_index - 1) 0 = rw (open', rub_out) refl in
      let back : (rub_out s).buf_index ≡ s.buf_index - 1 = rw (open', rub_out) refl in
      let at : s.buf_index - 1 ≡ length i = omega (arith, h.at_end, size) in
      record {
        short = omega (arith, size, h.short);
        at_end = back ∙ at;
        bytes =
            put
            ∙ ap₂ (λ b j. set b j 0) h.bytes at
            ∙ ap (λ l. set (l ++ replicate (256 - length line) 0) (length i) 0) e
            ∙ set-last i (256 - length line) c
            ∙ ap (λ m. i ++ replicate m 0) {x = suc (256 - length line)} {y = 256 - length i}
                (omega (arith, size, h.short));
      }
]

-- What the keys do to the line: `recall` and `forth` are what the arrows bring.
abbrev pub add_char : ℕ → List ℕ → List ℕ
add_char c line = if ltb (length line) 255 then line ++ c ∷ [] else line

abbrev pub edit : (recall forth : List ℕ) → Mode → ℕ → List ℕ → List ℕ
edit recall forth plain c line =
    if c == 9
    then add_char 32 (add_char 32 (add_char 32 (add_char 32 line)))
    else if c == 8
    then init_of line
    else if c == 27
    then line
    else add_char c line
edit recall forth escape c line = line
edit recall forth bracket c line = if c == 65 then recall else if c == 66 then forth else line

-- A key outside an escape sequence.
pub plain-Holds :
    (c : ℕ) (s : Shell) (line recall forth : List ℕ)
    → Holds s line
    → Holds (key plain c s).1 (edit recall forth plain c line)
unfolding key
plain-Holds c s line recall forth h = elim (Bool-cases (c == 9)) [
  | inl tab ↦
      let one = type_char-Holds 32 s line h in
      let two = type_char-Holds 32 _ _ one in
      let three = type_char-Holds 32 _ _ two in rw tab (type_char-Holds 32 _ _ three)
  | inr not_tab ↦ elim (Bool-cases (c == 8)) [
    | inl rub ↦ rw (not_tab, rub) (rub_out-Holds s line h)
    | inr not_rub ↦ elim (Bool-cases (c == 27)) [
      | inl esc ↦ rw (not_tab, not_rub, esc) h
      | inr other ↦ rw (not_tab, not_rub, other) (type_char-Holds c s line h)
    ]
  ]
]

-- While the buffer holds a line of at most 255 characters followed by zeros, and no remembered
-- command is longer, every key of readline does to the buffer what it should do to the line: a tab
-- adds up to four spaces, a backspace takes the last character, an arrow brings a line of the
-- history, another character is added while there is room; the buffer never runs over.
pub key-Holds :
    (mode : Mode) (c : ℕ) (s : Shell) (line : List ℕ)
    → Remembered s
    → Holds s line
    → Holds (key mode c s).1 (edit (before s) (later s) mode c line)
unfolding key
key-Holds plain c s line ok h = plain-Holds c s line (before s) (later s) h
key-Holds escape c s line ok h = h
key-Holds bracket c s line ok h = elim (Bool-cases (c == 65)) [
  | inl up ↦ rw up (get_prev_cmd-Holds s (ok _))
  | inr not_up ↦ elim (Bool-cases (c == 66)) [
    | inl down ↦ rw (not_up, down) (get_next_cmd-Holds s ok)
    | inr other ↦ rw (not_up, other) h
  ]
]
