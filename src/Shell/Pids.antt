-- ===== src/Shell/Pids.antt =====
-- The number that a pid argument stands for.
use toast_os.Prelude.{
  ℕ, ◌+◌, ◌-◌, ◌*◌, ◌%◌, ◌^◌, ◌<◌, ◌≡◌, refl, ◌∙◌, ap, Bool, true, false, none, some, List, [], ◌∷◌,
  if◌then◌else◌, ltb, not, ◌||◌, u64, arith, inl, inr, Bool-cases,
}
use toast_os.Shell.Args.{pid_digits, parse_pid_arg}

abbrev pub is_digit : ℕ → Bool
is_digit c = not (ltb c 48 || ltb 57 c)

abbrev pub all_digits : List ℕ → Bool
all_digits [] = true
all_digits (c ∷ cs) = if is_digit c then all_digits cs else false

-- The number that decimal digits write, after `value`.
abbrev pub decimal : List ℕ → (value : ℕ) → ℕ
decimal [] value = value
decimal (c ∷ cs) value = decimal cs (value * 10 + (c - 48))

decimal-u64 : (cs : List ℕ) (a b : ℕ) → u64 a ≡ u64 b → u64 (decimal cs a) ≡ u64 (decimal cs b)
decimal-u64 [] a b e = e
decimal-u64 (c ∷ cs) a b e =
    decimal-u64 cs (a * 10 + (c - 48)) (b * 10 + (c - 48)) (omega (arith, e))

pid_digits_lem :
    (cs : List ℕ) (value : ℕ)
    → value < 2 ^ 64
    → pid_digits cs value ≡ (if all_digits cs then some (u64 (decimal cs value)) else none)
unfolding pid_digits
pid_digits_lem [] value lt = ap some {x = value} {y = u64 value} (omega (arith, lt))
pid_digits_lem (c ∷ cs) value lt = elim (Bool-cases (ltb c 48 || ltb 57 c)) [
  | inl bad ↦ rw bad refl
  | inr good ↦ rw good (
      pid_digits_lem cs (u64 (value * 10 + (c - 48))) (omega arith)
      ∙ ap (λ v. if all_digits cs then some v else none)
          (decimal-u64 cs (u64 (value * 10 + (c - 48))) (value * 10 + (c - 48)) (omega arith)))
]

-- A pid argument that is not empty is accepted exactly if it has only digits, and stands for its
-- decimal value modulo 2^64.
pub parse_pid_arg_lem :
    (c : ℕ) (cs : List ℕ)
    → parse_pid_arg (some (c ∷ cs))
      ≡ (if all_digits (c ∷ cs) then some (decimal (c ∷ cs) 0 % 2 ^ 64) else none)
unfolding parse_pid_arg
parse_pid_arg_lem c cs = pid_digits_lem (c ∷ cs) 0 (omega arith)
