-- ===== src/Pmm/Bitmap.antt =====
-- One byte of the bitmap: what the three bit operations of pmm.c do to its bits, and how many of
-- its bits are clear.
use toast_os.Prelude.{
  ℕ, zero, suc, ◌+◌, ◌-◌, ◌*◌, ◌^◌, ◌<◌, ◌≡◌, refl, ◌≢◌, ◌∙◌, ap, true, ◌==◌, ==_iff, if◌then◌else◌,
  arith, inl, inr, lt_or_le, bit_and,
}
use toast_os.Prelude.Bits.{
  bit, bit-bit_and, bit-bit_or, bit-le_one, bit-pow, and-pow, pow-pos, and-lt_pow, or-lt_pow,
  pow-lt-pow, eq_of_bit, bit-high, all_below, test-all_below,
}
use toast_os.Pmm.{test_bit, set_bit, clear_bit}

-- `b & (1 << i)` is not zero exactly when bit `i` is 1.
pub test_bit-bit : (b i : ℕ) → test_bit b i ≡ (bit b i == 1)
test_bit-bit b i = elim (lt_or_le (bit b i) 1) [
  | inl h ↦
      let e : bit b i ≡ 0 = omega arith in
      let z : bit_and b (2 ^ i) ≡ 0 = omega (arith, and-pow i b, ap (λ (t : ℕ). t * 2 ^ i) e) in
      rw (z, e)
  | inr h ↦
      let e : bit b i ≡ 1 = omega (arith, bit-le_one i b) in
      let z : bit_and b (2 ^ i) ≡ 2 ^ i = omega (arith, and-pow i b, ap (λ (t : ℕ). t * 2 ^ i) e) in
      ground (arith, z, e, pow-pos i)
]

pub bit-set_bit : (b i j : ℕ) → bit (set_bit b i) j ≡ (if j == i then 1 else bit b j)
bit-set_bit b i j = ground (arith, bit-bit_or j b (2 ^ i), bit-pow i j, bit-le_one j b)

-- The bits of the mask `~(1 << i)`, within a byte.
mask_table :
    all_below (λ i. all_below (λ j. bit (255 - 2 ^ i) j == (if j == i then 0 else 1)) 8) 8 ≡ true
unfolding all_below
mask_table = refl

bit-mask : (i j : ℕ) → i < 8 → j < 8 → bit (255 - 2 ^ i) j ≡ (if j == i then 0 else 1)
bit-mask i j hi hj = (==_iff _ _).0 (test-all_below _ 8 (test-all_below _ 8 mask_table i hi) j hj)

pub bit-clear_bit :
    (b i j : ℕ) → i < 8 → j < 8 → bit (clear_bit b i) j ≡ (if j == i then 0 else bit b j)
bit-clear_bit b i j hi hj =
    ground (arith, bit-bit_and j b (255 - 2 ^ i), bit-mask i j hi hj, bit-le_one j b)

pub set_bit-lt : (b i : ℕ) → b < 256 → i < 8 → set_bit b i < 256
set_bit-lt b i hb hi = or-lt_pow 8 b (2 ^ i) hb (pow-lt-pow i 8 hi)

pub clear_bit-lt : (b i : ℕ) → b < 256 → clear_bit b i < 256
clear_bit-lt b i hb = and-lt_pow 8 b (255 - 2 ^ i) hb

-- Clearing a bit that was set just before gives the byte back.
pub clear_bit-set_bit : (b i : ℕ) → b < 256 → i < 8 → bit b i ≡ 0 → clear_bit (set_bit b i) i ≡ b
clear_bit-set_bit b i hb hi clear = eq_of_bit _ _ same
  where
    same : (j : ℕ) → bit (clear_bit (set_bit b i) i) j ≡ bit b j
    same j = elim (lt_or_le j 8) [
      | inl hj ↦ ground (
        arith,
        bit-clear_bit (set_bit b i) i j hi hj,
        bit-set_bit b i j,
        ap (bit b) {x = j} {y = i},
      )
      | inr hj ↦
          bit-high 8 _ j (clear_bit-lt (set_bit b i) i (set_bit-lt b i hb hi)) hj
          ∙ ground (arith, bit-high 8 b j hb hj)
    ]

-- How many of the first `k` bits are clear.
abbrev pub zeros : ℕ → ℕ → ℕ
zeros zero b = 0
zeros (suc k) b = (1 - bit b k) + zeros k b

pub zeros-same : (k b c : ℕ) → ((j : ℕ) → j < k → bit c j ≡ bit b j) → zeros k c ≡ zeros k b
zeros-same zero b c h = refl
zeros-same (suc k) b c h =
    omega (arith, h k (omega arith), zeros-same k b c (λ j lt. h j (omega arith)))

-- One bit goes from 0 to 1, and the others stay.
pub zeros-flip :
    (k b c i : ℕ)
    → i < k
    → bit b i ≡ 0
    → bit c i ≡ 1
    → ((j : ℕ) → j < k → j ≢ i → bit c j ≡ bit b j)
    → zeros k c + 1 ≡ zeros k b
zeros-flip zero b c i lt p q h = absurd (omega arith)
zeros-flip (suc k) b c i lt p q h = elim (lt_or_le i k) [
  | inl le ↦ omega (
    arith,
    h k (omega arith) (omega arith),
    zeros-flip k b c i le p q (λ j lt ne. h j (omega arith) ne),
  )
  | inr le ↦
      let e : k ≡ i = omega arith in
      omega (
        arith,
        ap (bit b) e,
        ap (bit c) e,
        zeros-same k b c (λ j lt. h j (omega arith) (omega arith)),
      )
]

pub zeros-set_bit : (b i : ℕ) → i < 8 → bit b i ≡ 0 → zeros 8 (set_bit b i) + 1 ≡ zeros 8 b
zeros-set_bit b i hi p =
    zeros-flip 8 b (set_bit b i) i hi p (ground (arith, bit-set_bit b i i))
      (λ j lt ne. ground (arith, bit-set_bit b i j))

pub zeros-clear_bit : (b i : ℕ) → i < 8 → bit b i ≡ 1 → zeros 8 (clear_bit b i) ≡ zeros 8 b + 1
zeros-clear_bit b i hi p =
    let flip =
      zeros-flip 8 (clear_bit b i) b i hi (ground (arith, bit-clear_bit b i i hi hi)) p
        (λ j lt ne. ground (arith, bit-clear_bit b i j hi lt)) in
    omega (arith, flip)

-- Every bit of 0xFF is set.
ones_table : all_below (λ j. bit 255 j == 1) 8 ≡ true
unfolding all_below
ones_table = refl

pub bit-ones : (j : ℕ) → j < 8 → bit 255 j ≡ 1
bit-ones j h = (==_iff _ _).0 (test-all_below _ 8 ones_table j h)
