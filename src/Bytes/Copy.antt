-- ===== src/Bytes/Copy.antt =====
-- What `memcpy`, `memmove`, `memset` and `memcmp` of kernel/mmu/memory.c do.
use toast_os.Prelude.{
  ℕ, zero, suc, ◌+◌, ◌-◌, ◌<◌, ◌≡◌, ap, sym, ◌∙◌, Bool, true, false, if◌then◌else◌, ltb, leb, ◌==◌,
  arith, u8, not, ◌&&◌, inl, inr, lt_or_le, Bool-cases,
}
use mathlib.Core.Path.{subst}
use toast_os.Prelude.Int.{ℤ, pos, negsuc}
use toast_os.Bytes.{put, copy_up, copy_down, memmove, memset, fill, memcmp, compare_from}

-- An address in the `n` bytes from `p` on.
abbrev pub within : ℕ → ℕ → ℕ → Bool
within p n a = leb p a && ltb a (p + n)

copy_up_lem :
    (m : ℕ → ℕ) (d s i n a : ℕ)
    → d < s
    → copy_up m d s i n a ≡ (if within (d + i) n a then m (s + (a - d)) else m a)
unfolding copy_up
copy_up_lem m d s i zero a lt = ground arith
copy_up_lem m d s i (suc n) a lt =
    let m1 = put m (d + i) (m (s + i)) in
    copy_up_lem m1 d s (i + 1) n a lt ∙ elim (Bool-cases (a == d + i)) [
      | inl here ↦ let same : s + (a - d) ≡ s + i = ground arith in ground (arith, ap m same)
      | inr other ↦ ground arith
    ]

copy_down_lem :
    (m : ℕ → ℕ) (d s n a : ℕ)
    → s < d
    → copy_down m d s n a ≡ (if within d n a then m (s + (a - d)) else m a)
unfolding copy_down
copy_down_lem m d s zero a lt = ground arith
copy_down_lem m d s (suc n) a lt =
    copy_down_lem (put m (d + n) (m (s + n))) d s n a lt ∙ elim (Bool-cases (a == d + n)) [
      | inl here ↦ let same : s + (a - d) ≡ s + n = ground arith in ground (arith, ap m same)
      | inr other ↦ ground arith
    ]

-- memmove leaves at the destination what the source held before, even where the two overlap, and
-- every other byte as it was.
pub memmove_lem :
    (m : ℕ → ℕ) (dest src n a : ℕ)
    → memmove m dest src n a ≡ (if within dest n a then m (src + (a - dest)) else m a)
unfolding memmove
memmove_lem m dest src n a = elim (lt_or_le dest src) [
  | inl lt ↦
      let test : ltb dest src ≡ true = ground arith in
      rw test (copy_up_lem m dest src 0 n a lt ∙ ground arith)
  | inr le ↦
      let test : ltb dest src ≡ false = ground arith in
      elim (lt_or_le src dest) [
        | inl lt ↦
            let test' : ltb src dest ≡ true = ground arith in
            rw (test, test') (copy_down_lem m dest src n a lt)
        | inr ge ↦
            let test' : ltb src dest ≡ false = ground arith in
            rw (test, test')
              (elim (Bool-cases (within dest n a)) [
                | inl inside ↦
                    let same : src + (a - dest) ≡ a = ground arith in ground (arith, ap m same)
                | inr outside ↦ ground arith
              ])
      ]
]

fill_lem :
    (m : ℕ → ℕ) (p c i n a : ℕ) → fill m p c i n a ≡ (if within (p + i) n a then u8 c else m a)
unfolding fill
fill_lem m p c i zero a = ground arith
fill_lem m p c i (suc n) a = fill_lem (put m (p + i) (u8 c)) p c (i + 1) n a ∙ ground arith

-- memset leaves the low byte of c in each of the n bytes, and every other byte as it was.
pub memset_lem : (m : ℕ → ℕ) (s c n a : ℕ) → memset m s c n a ≡ (if within s n a then u8 c else m a)
unfolding memset
memset_lem m s c n a = fill_lem m s c 0 n a ∙ ground arith

-- What `memcmp` answers: `a` and `b` agree, or they do up to a byte where they are in that order.
pub data Compared (m : ℕ → ℕ) (a b n : ℕ) : ℤ → Type 0 where
  same : ((j : ℕ) → j < n → m (a + j) ≡ m (b + j)) → Compared m a b n (pos 0)
  below :
      (j : ℕ)
      → j < n
      → ((k : ℕ) → k < j → m (a + k) ≡ m (b + k))
      → m (a + j) < m (b + j)
      → Compared m a b n (negsuc 0)
  above :
      (j : ℕ)
      → j < n
      → ((k : ℕ) → k < j → m (a + k) ≡ m (b + k))
      → m (b + j) < m (a + j)
      → Compared m a b n (pos 1)

compare_from_lem :
    (m : ℕ → ℕ) (a b i n : ℕ)
    → ((k : ℕ) → k < i → m (a + k) ≡ m (b + k))
    → Compared m a b (i + n) (compare_from m a b i n)
unfolding compare_from
compare_from_lem m a b i zero agree = same (λ j lt. agree j (omega arith))
compare_from_lem m a b i (suc n) agree = elim (lt_or_le (m (a + i)) (m (b + i))) [
  | inl lt ↦
      let differ : not (m (a + i) == m (b + i)) ≡ true = ground arith in
      let test : ltb (m (a + i)) (m (b + i)) ≡ true = ground arith in
      rw (differ, test) (below i (omega arith) agree lt)
  | inr le ↦ elim (lt_or_le (m (b + i)) (m (a + i))) [
    | inl gt ↦
        let differ : not (m (a + i) == m (b + i)) ≡ true = ground arith in
        let test : ltb (m (a + i)) (m (b + i)) ≡ false = ground arith in
        rw (differ, test) (above i (omega arith) agree gt)
    | inr ge ↦
        let equal : m (a + i) ≡ m (b + i) = omega arith in
        let differ : not (m (a + i) == m (b + i)) ≡ false = ground arith in
        let further : (k : ℕ) → k < i + 1 → m (a + k) ≡ m (b + k) = λ k lt. elim (lt_or_le k i) [
          | inl before ↦ agree k before
          | inr at ↦
              let e : k ≡ i = omega arith in
              ap (λ z. m (a + z)) e ∙ equal ∙ ap (λ z. m (b + z)) (sym e)
        ] in
        let size : i + 1 + n ≡ i + suc n = omega arith in
        rw (differ, sym size) (compare_from_lem m a b (i + 1) n further)
  ]
]

-- memcmp answers 0 if the bytes agree, and else -1 or 1 by the order of the first bytes that do
-- not.
pub memcmp_lem : (m : ℕ → ℕ) (a b n : ℕ) → Compared m a b n (memcmp m a b n)
unfolding memcmp
memcmp_lem m a b n =
    let size : 0 + n ≡ n = omega arith in
    subst (λ k. Compared m a b k (compare_from m a b 0 n)) size
      (compare_from_lem m a b 0 n (λ k lt. absurd (omega arith)))
