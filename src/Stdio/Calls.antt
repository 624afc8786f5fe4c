-- ===== src/Stdio/Calls.antt =====
-- Calls of putstr and printf of kernel/stdlib/stdio.c and kernel/shell/console.c in a row, and the
-- characters that reach `putchar`.
use toast_os.Prelude.{ℕ, Option, some, List, [], ◌∷◌, ◌++◌, ◌>>=◌}
use toast_os.Stdio.{Arg, printf}

-- A call of `putstr`, and one of `printf`.
pub data Call : Type 0 where
  put : (text : List ℕ) → Call
  format : (fmt : List ℕ) → (args : List Arg) → Call

abbrev pub number : ℕ → Arg
number n = Arg.word n

abbrev pub string : List ℕ → Arg
string s = Arg.text s

-- `none` is a run that C leaves undefined.
unfoldable pub run_call : Call → Option (List ℕ)
unfolding printf
run_call (put s) = some s
run_call (format fmt args) = printf fmt args

unfoldable pub prints : List Call → Option (List ℕ)
unfolding run_call
prints [] = some []
prints (c ∷ cs) = do out ← run_call c; rest ← prints cs; some (out ++ rest)
