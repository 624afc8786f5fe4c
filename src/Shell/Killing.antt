-- ===== src/Shell/Killing.antt =====
-- kill and status of kernel/shell/tsh.c on a pid as ps prints it.
use toast_os.Prelude.{
  ℕ, zero, suc, ◌+◌, ◌-◌, ◌*◌, ◌/◌, ◌%◌, ◌^◌, ◌<◌, ◌≡◌, ◌≢◌, length, refl, ap, ◌∙◌, true, some,
  List, [], ◌∷◌, ◌++◌, append-nil, codes, if◌then◌else◌, ltb, u64, arith, Bool-cases, inl, inr,
}
use toast_os.Stdio.{hex_digit, digits, reverse, printf, vprintf_core, print_spec}
use toast_os.Stdio.Numbers.{read_from, read-digits, printf_number-digits, length-reverse}
use toast_os.Tasks.State.{Kernel}
use toast_os.Shell.Args.{parse_pid_arg}
use toast_os.Shell.Pids.{is_digit, all_digits, decimal, parse_pid_arg_lem}
use toast_os.Stdio.Calls.{number}
use toast_os.Shell.TaskCommands.{shell_cmd_kill, cmd_kill, shell_cmd_status, cmd_status}

all_digits-snoc :
    (cs : List ℕ) (c : ℕ)
    → all_digits cs ≡ true
    → is_digit c ≡ true
    → all_digits (cs ++ c ∷ []) ≡ true
all_digits-snoc [] c h one = rw one refl
all_digits-snoc (x ∷ cs) c h one = elim (Bool-cases (is_digit x)) [
  | inl e ↦ rw e (all_digits-snoc cs c (rw e at h) one)
  | inr e ↦ cc (rw e at h)
]

all_digits-reverse : (cs : List ℕ) → all_digits cs ≡ true → all_digits (reverse cs) ≡ true
all_digits-reverse [] h = refl
all_digits-reverse (x ∷ cs) h = elim (Bool-cases (is_digit x)) [
  | inl e ↦ all_digits-snoc (reverse cs) x (all_digits-reverse cs (rw e at h)) e
  | inr e ↦ cc (rw e at h)
]

all_digits-digits : (fuel n : ℕ) → all_digits (digits fuel n 10) ≡ true
unfolding digits
all_digits-digits zero n = refl
all_digits-digits (suc fuel) n =
    let more = all_digits-digits fuel (n / 10) in
    let one : is_digit (hex_digit (n % 10)) ≡ true = ground arith in
    elim (Bool-cases (ltb 0 (n / 10))) [ inl e ↦ rw (one, e) more | inr e ↦ rw (one, e) refl ]

decimal-read_from :
    (cs : List ℕ) (value : ℕ) → all_digits cs ≡ true → decimal cs value ≡ read_from 10 value cs
decimal-read_from [] value h = refl
decimal-read_from (c ∷ cs) value h = elim (Bool-cases (is_digit c)) [
  | inl e ↦
      let same : value * 10 + (c - 48) ≡ value * 10 + (if ltb c 58 then c - 48 else c - 87) =
        ground (arith, e) in
      ap (decimal cs) same ∙ decimal-read_from cs _ (rw e at h)
  | inr e ↦ cc (rw e at h)
]

parse_pid_arg-digits :
    (out : List ℕ) (n : ℕ)
    → out ≢ []
    → all_digits out ≡ true
    → read_from 10 0 out ≡ n
    → n < 2 ^ 64
    → parse_pid_arg (some out) ≡ some n
parse_pid_arg-digits [] n some_digit ok e h = absurd (some_digit refl)
parse_pid_arg-digits (c ∷ cs) n some_digit ok e h =
    parse_pid_arg_lem c cs
    ∙ rw ok (ap (λ v. some v) (ap u64 (decimal-read_from (c ∷ cs) 0 ok ∙ e) ∙ omega (arith, h)))

reverse-ne-nil : (c : ℕ) (cs : List ℕ) → reverse (c ∷ cs) ≢ []
reverse-ne-nil c cs e = omega (arith, length-reverse (c ∷ cs), ap length e)

digits-ne-nil : (fuel n : ℕ) → reverse (digits (suc fuel) n 10) ≢ []
unfolding digits
digits-ne-nil fuel n e =
    reverse-ne-nil (hex_digit (n % 10)) (if ltb 0 (n / 10) then digits fuel (n / 10) 10 else []) e

-- `%lu` prints the digits of a pid.
printf-pid :
    (pid : ℕ)
    → pid < 2 ^ 64
    → printf (codes "%lu") (number pid ∷ []) ≡ some (reverse (digits 64 pid 10))
unfolding printf vprintf_core print_spec
printf-pid pid h =
    let whole : u64 pid ≡ pid = omega (arith, h) in
    rw (whole, printf_number-digits 10 pid, append-nil (reverse (digits 64 pid 10))) refl

-- The pid that `%lu` prints, which ps uses, is read back by kill and status as that pid: with it
-- as their argument they do what shell_cmd_kill and shell_cmd_status do for the pid.
pub cmd_kill-printf :
    (names : ℕ → List ℕ) (idle : Kernel → Kernel) (bound : ℕ) (k : Kernel) (pid : ℕ)
    → (name : List ℕ) → pid < 2 ^ 64
    → (shown : List ℕ) × (printf (codes "%lu") (number pid ∷ []) ≡ some shown)
      × (cmd_kill idle bound k (name ∷ shown ∷ []) ≡ shell_cmd_kill idle bound k pid)
      × (cmd_status names k (name ∷ shown ∷ []) ≡ shell_cmd_status names k pid)
unfolding cmd_kill cmd_status
cmd_kill-printf names idle bound k pid name h =
    let shown = reverse (digits 64 pid 10) in
    let read : parse_pid_arg (some shown) ≡ some pid =
      parse_pid_arg-digits shown pid (digits-ne-nil 63 pid)
        (all_digits-reverse (digits 64 pid 10) (all_digits-digits 64 pid))
        (read-digits 10 (omega arith) (omega arith) 64 pid h) h in
    (shown, printf-pid pid h, rw read refl, rw read refl)
