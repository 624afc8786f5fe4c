-- ===== src/Vmm/Entries.antt =====
-- The fields of a page table entry under `|`.
use toast_os.Prelude.{
  ℕ, zero, suc, ◌*◌, ◌/◌, ◌%◌, ◌^◌, ◌<◌, ◌≡◌, refl, ◌∙◌, ap, ap₂, sym, true, false, ◌==◌, not, max,
  min, arith, bit_and, bit_or, ◌||◌,
}
use native.Mathlib.Nat.{div-one}
use toast_os.Prelude.Bits.{
  bit, bit-bit_or, bit_or_halves, bit-le_one, and-pow, and-field, div-pow-suc, mod-pow-suc,
  eq_of_bit, bit-zero, bit-bit_and,
}
use toast_os.Pmm.Bitmap.{test_bit-bit}
use toast_os.Vmm.{present, writable, user, huge, frame_of, table_entry, page_entry, pte_user}

or-zero : (a : ℕ) → bit_or a 0 ≡ a
or-zero a = eq_of_bit (bit_or a 0) a (λ i. omega (arith, bit-bit_or i a 0, bit-zero i))

or_half : (a b : ℕ) → bit_or a b / 2 ≡ bit_or (a / 2) (b / 2)
or_half a b = omega (arith, bit_or_halves a b)

or-div_pow : (k a b : ℕ) → bit_or a b / 2 ^ k ≡ bit_or (a / 2 ^ k) (b / 2 ^ k)
or-div_pow zero a b = div-one (bit_or a b) ∙ sym (ap₂ bit_or (div-one a) (div-one b))
or-div_pow (suc k) a b =
    div-pow-suc k (bit_or a b)
    ∙ ap (λ n. n / 2 ^ k) (or_half a b)
    ∙ or-div_pow k (a / 2) (b / 2)
    ∙ sym (ap₂ bit_or (div-pow-suc k a) (div-pow-suc k b))

or-mod_pow : (k a b : ℕ) → bit_or a b % 2 ^ k ≡ bit_or (a % 2 ^ k) (b % 2 ^ k)
or-mod_pow zero a b =
    let z : (n : ℕ) → n % 1 ≡ 0 = λ n. omega arith in z (bit_or a b) ∙ sym (ap₂ bit_or (z a) (z b))
or-mod_pow (suc k) a b =
    let x : ℕ = a % 2 ^ suc k in
    let y : ℕ = b % 2 ^ suc k in
    let xh : x / 2 ≡ a / 2 % 2 ^ k = omega (arith, mod-pow-suc k a) in
    let yh : y / 2 ≡ b / 2 % 2 ^ k = omega (arith, mod-pow-suc k b) in
    let xl : x % 2 ≡ a % 2 = omega (arith, mod-pow-suc k a) in
    let yl : y % 2 ≡ b % 2 = omega (arith, mod-pow-suc k b) in
    omega (
      arith,
      mod-pow-suc k (bit_or a b),
      ap (λ n. n % 2 ^ k) (or_half a b),
      or-mod_pow k (a / 2) (b / 2),
      bit_or_halves a b,
      bit_or_halves x y,
      ap₂ bit_or xh yh,
      xl,
      yl,
    )

-- The frame that an entry leads to, as a number of pages.
abbrev pub page_of : ℕ → ℕ
page_of e = e / 2 ^ 12 % 2 ^ 40

pub frame_of-page : (e : ℕ) → frame_of e ≡ page_of e * 4096
frame_of-page e = and-field 12 40 e

pub page_of-or : (a b : ℕ) → page_of (bit_or a b) ≡ bit_or (page_of a) (page_of b)
page_of-or a b = ap (λ n. n % 2 ^ 40) (or-div_pow 12 a b) ∙ or-mod_pow 40 (a / 2 ^ 12) (b / 2 ^ 12)

-- The tests read one bit each.
test-bit : (j e : ℕ) → not (bit_and e (2 ^ j) == 0) ≡ (bit e j == 1)
test-bit j e = test_bit-bit e j

test-or :
    (j a b : ℕ)
    → not (bit_and (bit_or a b) (2 ^ j) == 0)
      ≡ (not (bit_and a (2 ^ j) == 0) || not (bit_and b (2 ^ j) == 0))
test-or j a b =
    rw (test-bit j (bit_or a b), test-bit j a, test-bit j b)
      (ground (arith, bit-bit_or j a b, bit-le_one j a, bit-le_one j b))

module _ (p flags : ℕ) (aligned : p % 4096 ≡ 0) (small : p < 2 ^ 52) where
  bit-table_entry :
      (j : ℕ)
      → bit (table_entry p flags) j
        ≡ max (max (max (bit p j) (bit 1 j)) (bit 2 j)) (min (bit flags j) (bit 4 j))
  bit-table_entry j =
      bit-bit_or j (bit_or (bit_or p 1) 2) (bit_and flags 4)
      ∙ ap₂ max (bit-bit_or j (bit_or p 1) 2 ∙ ap (λ n. max n (bit 2 j)) (bit-bit_or j p 1))
          (bit-bit_and j flags 4)

  pub present-table_entry : present (table_entry p flags) ≡ true
  present-table_entry =
      test-bit 0 (table_entry p flags) ∙ ground (arith, bit-table_entry 0, bit-le_one 0 p)

  pub user-table_entry : user (table_entry p flags) ≡ user flags
  user-table_entry =
      test-bit 2 (table_entry p flags)
      ∙ ground (arith, bit-table_entry 2, bit-le_one 2 flags, test-bit 2 flags)

  pub writable-table_entry : writable (table_entry p flags) ≡ true
  writable-table_entry =
      test-bit 1 (table_entry p flags) ∙ ground (arith, bit-table_entry 1, bit-le_one 1 p)

  pub huge-table_entry : huge (table_entry p flags) ≡ false
  huge-table_entry = test-bit 7 (table_entry p flags) ∙ ground (arith, bit-table_entry 7)

  pub frame_of-table_entry : frame_of (table_entry p flags) ≡ p
  frame_of-table_entry =
      let low : page_of (bit_and flags 4) ≡ 0 =
        omega (arith, and-pow 2 flags, bit-le_one 2 flags) in
      let page : page_of (table_entry p flags) ≡ page_of p =
        page_of-or (bit_or (bit_or p 1) 2) (bit_and flags 4)
        ∙ ap₂ bit_or (page_of-or (bit_or p 1) 2 ∙ or-zero (page_of (bit_or p 1))) low
        ∙ or-zero (page_of (bit_or p 1))
        ∙ page_of-or p 1
        ∙ or-zero (page_of p) in
      omega (arith, frame_of-page (table_entry p flags), page)

-- The flags of a mapping leave the address bits of the entry alone.
abbrev pub FlagsFit : ℕ → Type 0
FlagsFit flags = page_of flags ≡ 0

module _ (p flags : ℕ) (fit : FlagsFit flags) where
  pub present-page_entry : present (page_entry p flags) ≡ true
  present-page_entry =
      rw (test-or 0 (bit_or (frame_of p) 1) flags, test-or 0 (frame_of p) 1) (ground arith)

  pub frame_of-page_entry : frame_of (page_entry p flags) ≡ frame_of p
  frame_of-page_entry =
      let inner : page_of (bit_or (frame_of p) 1) ≡ page_of p =
        page_of-or (frame_of p) 1
        ∙ or-zero (page_of (frame_of p))
        ∙ omega (arith, frame_of-page p) in
      let page : page_of (page_entry p flags) ≡ page_of p =
        page_of-or (bit_or (frame_of p) 1) flags ∙ ap₂ bit_or inner fit ∙ or-zero (page_of p) in
      omega (arith, frame_of-page (page_entry p flags), frame_of-page p, page)

-- Raising the user bit of an entry.
module _ (e : ℕ) where
  pub present-raised : present (bit_or e pte_user) ≡ present e
  present-raised = test-or 0 e 4 ∙ ground arith

  pub huge-raised : huge (bit_or e pte_user) ≡ huge e
  huge-raised = test-or 7 e 4 ∙ ground arith

  pub writable-raised : writable (bit_or e pte_user) ≡ writable e
  writable-raised = test-or 1 e 4 ∙ ground arith

  pub user-raised : user (bit_or e pte_user) ≡ true
  user-raised = test-or 2 e 4 ∙ ground arith

  pub frame_of-raised : frame_of (bit_or e pte_user) ≡ frame_of e
  frame_of-raised =
      let page : page_of (bit_or e 4) ≡ page_of e = page_of-or e 4 ∙ or-zero (page_of e) in
      omega (arith, frame_of-page (bit_or e 4), frame_of-page e, page)

pub present-zero : present 0 ≡ false
present-zero = refl
