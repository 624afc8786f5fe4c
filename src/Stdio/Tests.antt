-- ===== src/Stdio/Tests.antt =====
-- The theorems on kernel/stdlib/stdio.c at concrete formats.
use toast_os.Prelude.{
  ℕ, ◌≡◌, ◌≤◌, ◌<◌, Bool, true, false, List, [], ◌∷◌, refl, codes, none, some, length,
}
use toast_os.Stdio.{word, text, printf, vprintf_core, print_spec, printf_number, digits}
use toast_os.Stdio.Total.{blank, printf-blank}
use toast_os.Stdio.Numbers.{printf_number_width}

printf_number_width_example :
    (100 ≤ 64
      → (out : List ℕ) × (printf_number 7 false 0 10 100 true ≡ some out) × (100 ≤ length out))
    × (64 < 100 → (is_signed : Bool) (v : ℕ) → printf_number 7 is_signed v 10 100 true ≡ none)
printf_number_width_example = printf_number_width 7 10 100 true

blank_run :
    printf (codes "%08x %s") (blank (word 48879 ∷ text (codes "ok") ∷ []))
    ≡ some (codes "00000000 ")
unfolding printf vprintf_core print_spec printf_number digits
blank_run = refl

printf-blank_example :
    (out : List ℕ) × (printf (codes "%08x %s") (word 48879 ∷ text (codes "ok") ∷ []) ≡ some out)
printf-blank_example =
    printf-blank (codes "%08x %s") (word 48879 ∷ text (codes "ok") ∷ []) blank_run
