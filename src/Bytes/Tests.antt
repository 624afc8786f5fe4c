-- ===== src/Bytes/Tests.antt =====
-- The theorems on kernel/mmu/memory.c and kernel/stdlib/string.c at concrete memories.
use toast_os.Prelude.{ℕ, ◌≡◌, refl, [], ◌∷◌, arith, get_or}
use toast_os.Prelude.Int.{pos}
use toast_os.Bytes.{strncmp}
use toast_os.Bytes.Text.{strncmp-last}

-- `ab` at 0, `ac` at 10, and `ab` at 20.
abbrev two_words : ℕ → ℕ
two_words p =
    get_or
      (97 ∷ 98 ∷ 0 ∷ 0 ∷ 0 ∷ 0 ∷ 0 ∷ 0 ∷ 0 ∷ 0 ∷ 97 ∷ 99 ∷ 0 ∷ 0 ∷ 0 ∷ 0 ∷ 0 ∷ 0 ∷ 0 ∷ 0 ∷ 97 ∷ 98
        ∷ 0 ∷ 0 ∷ [])
      p 0

strncmp-last_example : strncmp two_words 0 10 2 ≡ pos 0
strncmp-last_example =
    strncmp-last two_words 0 10 (97 ∷ []) (refl, omega arith, tt) (refl, omega arith, tt)
      (omega arith)
