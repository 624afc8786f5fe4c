-- ===== src/Prelude/Bits.antt =====
-- The bits of a number, and what `&` and `|` do to them.
use Prim.Native.Nat.{
  ℕ, zero, suc, ◌+◌, ◌-◌, ◌*◌, ◌/◌, ◌%◌, ◌^◌, ◌≤◌, ◌<◌, min, max, bit_and, bit_or, digits,
  bit_and-bitwise, bit_or-bitwise,
}
use mathlib.Core.Path.{◌≡◌, refl, sym, ap, ap₂, ◌∙◌}
use mathlib.Core.Bool.{Bool, true, false}
use native.Mathlib.Nat.{
  pow-suc, pow-succ', div-div-eq-div-mul, div-add-mod', mul-add-mod_self_right, mod-eq_of_lt,
  mod-lt, div-one, mul-one, one-le-pow, mul-div_cancel,
}
use native.Mathlib.Omega.{arith}
use toast_os.Prelude.Tests.{◌==◌, if◌then◌else◌}

-- Bit `i` of `n`, 0 or 1.
abbrev pub bit : ℕ → ℕ → ℕ
bit n zero = n % 2
bit n (suc i) = bit (n / 2) i

-- The recursion on digits behind the native operations: what more rounds than digits give.
module _ (rest : ℕ → ℕ) (g : ℕ → ℕ → ℕ) where
  no_digits : (rounds b : ℕ) → digits rest g rounds 0 b ≡ rest b
  no_digits zero b = refl
  no_digits (suc rounds) b = refl

  more_rounds :
      (a b less more : ℕ) → a ≤ less → less ≤ more → digits rest g more a b ≡ digits rest g less a b
  more_rounds zero b less more low high = no_digits more b ∙ sym (no_digits less b)
  more_rounds (suc a) b zero more low high = absurd (omega arith)
  more_rounds (suc a) b (suc less) zero low high = absurd (omega arith)
  more_rounds (suc a) b (suc less) (suc more) low high =
      ap (λ t. t * 2 + g (suc a % 2) (b % 2))
        (more_rounds (suc a / 2) (b / 2) less more (omega arith) (omega arith))

-- `&` and `|` on the lowest bit and on the rest.
pub bit_and_halves : (a b : ℕ) → bit_and a b ≡ bit_and (a / 2) (b / 2) * 2 + min (a % 2) (b % 2)
bit_and_halves zero b =
    let whole = bit_and-bitwise 0 b in
    let half = bit_and-bitwise 0 (b / 2) in omega (arith, half, whole)
bit_and_halves (suc a) b =
    bit_and-bitwise (suc a) b
    ∙ ap (λ t. t * 2 + min (suc a % 2) (b % 2))
        (more_rounds (λ _. zero) min (suc a / 2) (b / 2) (suc a / 2) a (omega arith) (omega arith)
          ∙ sym (bit_and-bitwise (suc a / 2) (b / 2)))

pub bit_or_halves : (a b : ℕ) → bit_or a b ≡ bit_or (a / 2) (b / 2) * 2 + max (a % 2) (b % 2)
bit_or_halves zero b =
    let whole = bit_or-bitwise 0 b in
    let half = bit_or-bitwise 0 (b / 2) in omega (arith, half, whole)
bit_or_halves (suc a) b =
    bit_or-bitwise (suc a) b
    ∙ ap (λ t. t * 2 + max (suc a % 2) (b % 2))
        (more_rounds (λ y. y) max (suc a / 2) (b / 2) (suc a / 2) a (omega arith) (omega arith)
          ∙ sym (bit_or-bitwise (suc a / 2) (b / 2)))

-- The bits of `a & b` and of `a | b`.
pub bit-bit_and : (i a b : ℕ) → bit (bit_and a b) i ≡ min (bit a i) (bit b i)
bit-bit_and zero a b = omega (arith, bit_and_halves a b)
bit-bit_and (suc i) a b =
    ap (λ n. bit n i) (omega (arith, bit_and_halves a b)) ∙ bit-bit_and i (a / 2) (b / 2)

pub bit-bit_or : (i a b : ℕ) → bit (bit_or a b) i ≡ max (bit a i) (bit b i)
bit-bit_or zero a b = omega (arith, bit_or_halves a b)
bit-bit_or (suc i) a b =
    ap (λ n. bit n i) (omega (arith, bit_or_halves a b)) ∙ bit-bit_or i (a / 2) (b / 2)

pub bit-le_one : (i n : ℕ) → bit n i ≤ 1
bit-le_one zero n = omega arith
bit-le_one (suc i) n = bit-le_one i (n / 2)

pub bit-zero : (i : ℕ) → bit 0 i ≡ 0
bit-zero zero = refl
bit-zero (suc i) = bit-zero i

-- Two numbers with the same bits are equal.
eq_of_bit_fuel : (k a b : ℕ) → a ≤ k → b ≤ k → ((i : ℕ) → bit a i ≡ bit b i) → a ≡ b
eq_of_bit_fuel zero a b p q h = omega arith
eq_of_bit_fuel (suc k) a b p q h =
    let low : a % 2 ≡ b % 2 = h 0 in
    omega (arith, eq_of_bit_fuel k (a / 2) (b / 2) (omega arith) (omega arith) (λ i. h (suc i)))

pub eq_of_bit : (a b : ℕ) → ((i : ℕ) → bit a i ≡ bit b i) → a ≡ b
eq_of_bit a b h = eq_of_bit_fuel (a + b) a b (omega arith) (omega arith) h

-- The bits of a power of two, and of a sum above it.
pub pow_half : (j : ℕ) → 2 ^ suc j / 2 ≡ 2 ^ j
pow_half j = omega (arith, pow-suc 2 j)

pub pow_even : (j : ℕ) → 2 ^ suc j % 2 ≡ 0
pow_even j = omega (arith, pow-suc 2 j)

pub bit-pow : (j i : ℕ) → bit (2 ^ j) i ≡ (if i == j then 1 else 0)
bit-pow zero zero = refl
bit-pow zero (suc i) = bit-zero i ∙ ground arith
bit-pow (suc j) zero = pow_even j ∙ ground arith
bit-pow (suc j) (suc i) = ap (λ n. bit n i) (pow_half j) ∙ bit-pow j i ∙ ground arith

pub pow-lt-pow : (i k : ℕ) → i < k → 2 ^ i < 2 ^ k
pow-lt-pow i zero h = absurd (omega arith)
pow-lt-pow zero (suc k) h = omega (arith, pow-suc 2 k, one-le-pow k 2 (omega arith))
pow-lt-pow (suc i) (suc k) h = omega (arith, pow-suc 2 k, pow-suc 2 i, pow-lt-pow i k (omega arith))

-- `a & (1 << j)` is zero exactly when bit `j` of `a` is.
pub zero-and : (b : ℕ) → bit_and 0 b ≡ 0
zero-and b = eq_of_bit (bit_and 0 b) 0 (λ i. omega (arith, bit-bit_and i 0 b, bit-zero i))

pub and-zero : (a : ℕ) → bit_and a 0 ≡ 0
and-zero a = eq_of_bit (bit_and a 0) 0 (λ i. omega (arith, bit-bit_and i a 0, bit-zero i))

pub and-pow : (j a : ℕ) → bit_and a (2 ^ j) ≡ bit a j * 2 ^ j
and-pow zero a = omega (arith, bit_and_halves a 1, and-zero (a / 2))
and-pow (suc j) a = omega (
  arith,
  bit_and_halves a (2 ^ suc j),
  ap (bit_and (a / 2)) (pow_half j),
  pow_even j,
  ap (λ (t : ℕ). bit (a / 2) j * t) (pow-suc 2 j),
  and-pow j (a / 2),
)

-- A number below a power of two has no bits from there on.
pub bit-high : (k n i : ℕ) → n < 2 ^ k → k ≤ i → bit n i ≡ 0
bit-high zero n i h le = ap (λ m. bit m i) (omega arith) ∙ bit-zero i
bit-high (suc k) n zero h le = absurd (omega arith)
bit-high (suc k) n (suc i) h le = bit-high k (n / 2) i (omega (arith, pow-suc 2 k)) (omega arith)

-- `&` and `|` stay below a power of two.
pub and-lt_pow : (k a b : ℕ) → a < 2 ^ k → bit_and a b < 2 ^ k
and-lt_pow zero a b h = omega (arith, ap (λ n. bit_and n b) (zero_of_lt_one a h), zero-and b)
  where
    zero_of_lt_one : (n : ℕ) → n < 1 → n ≡ 0
    zero_of_lt_one n h = omega arith
and-lt_pow (suc k) a b h = omega (
  arith,
  pow-suc 2 k,
  bit_and_halves a b,
  and-lt_pow k (a / 2) (b / 2) (omega (arith, pow-suc 2 k)),
)

pub or-lt_pow : (k a b : ℕ) → a < 2 ^ k → b < 2 ^ k → bit_or a b < 2 ^ k
or-lt_pow zero a b p q = omega (arith, ap₂ bit_or (zero_of_lt_one a p) (zero_of_lt_one b q))
  where
    zero_of_lt_one : (n : ℕ) → n < 1 → n ≡ 0
    zero_of_lt_one n h = omega arith
or-lt_pow (suc k) a b p q = omega (
  arith,
  pow-suc 2 k,
  bit_or_halves a b,
  or-lt_pow k (a / 2) (b / 2) (omega (arith, pow-suc 2 k)) (omega (arith, pow-suc 2 k)),
)

pub pow-pos : (k : ℕ) → 0 < 2 ^ k
pow-pos zero = omega arith
pow-pos (suc k) = omega (arith, pow-suc 2 k, pow-pos k)

-- A quotient and a remainder by a power of two, one digit at a time.
pub div-pow-suc : (k a : ℕ) → a / 2 ^ suc k ≡ a / 2 / 2 ^ k
div-pow-suc k a = ap (λ t. a / t) (pow-succ' 2 k) ∙ sym (div-div-eq-div-mul a 2 (2 ^ k))

pub mod-pow-suc : (k a : ℕ) → a % 2 ^ suc k ≡ a / 2 % 2 ^ k * 2 + a % 2
mod-pow-suc k a =
    let p : ℕ = 2 ^ k in
    let low : ℕ = a / 2 % p * 2 + a % 2 in
    let split : a ≡ a / 2 / p * 2 ^ suc k + low =
      omega (arith, div-add-mod' (a / 2) p, ap (λ (t : ℕ). a / 2 / p * t) (pow-suc 2 k)) in
    ap (λ t. t % 2 ^ suc k) split
    ∙ mul-add-mod_self_right (a / 2 / p) (2 ^ suc k) low
    ∙ mod-eq_of_lt (omega (arith, pow-suc 2 k, mod-lt (a / 2) (pow-pos k)))

-- `a & (2 ^ k - 1)` is the remainder.
pub and-ones : (k a : ℕ) → bit_and a (2 ^ k - 1) ≡ a % 2 ^ k
and-ones zero a = omega (arith, and-zero a)
and-ones (suc k) a = omega (
  arith,
  pow-suc 2 k,
  pow-pos k,
  bit_and_halves a (2 ^ suc k - 1),
  ap (bit_and (a / 2)) (half-ones k),
  and-ones k (a / 2),
  mod-pow-suc k a,
)
  where
    half-ones : (k : ℕ) → (2 ^ suc k - 1) / 2 ≡ 2 ^ k - 1
    half-ones k = omega (arith, pow-suc 2 k, pow-pos k)

-- `a & ((2 ^ k - 1) << j)` keeps the `k` bits from `j` on.
pub and-field : (j k a : ℕ) → bit_and a ((2 ^ k - 1) * 2 ^ j) ≡ a / 2 ^ j % 2 ^ k * 2 ^ j
and-field zero k a = omega (
  arith,
  ap (bit_and a) (mul-one (2 ^ k - 1)),
  and-ones k a,
  div-one a,
  ap (λ t. t % 2 ^ k) (div-one a),
)
and-field (suc j) k a =
    let m : ℕ = 2 ^ k - 1 in
    let x : ℕ = a / 2 / 2 ^ j % 2 ^ k in
    let mask : m * 2 ^ suc j ≡ m * 2 ^ j * 2 = omega (arith, ap (λ (t : ℕ). m * t) (pow-suc 2 j)) in
    omega (
      arith,
      bit_and_halves a (m * 2 ^ suc j),
      mask,
      ap (λ (t : ℕ). bit_and (a / 2) (t / 2)) mask,
      ap (bit_and (a / 2)) (mul-div_cancel (m * 2 ^ j) {n = 2} (omega arith)),
      and-field j k (a / 2),
      ap (λ (t : ℕ). t % 2 ^ k * 2 ^ suc j) (div-pow-suc j a),
      ap (λ (t : ℕ). x * t) (pow-suc 2 j),
    )

-- A test of all the numbers below a bound, by evaluation.
unfoldable pub all_below : (ℕ → Bool) → ℕ → Bool
all_below test zero = true
all_below test (suc top) = if test top then all_below test top else false

pub test-all_below :
    (test : ℕ → Bool) (bound : ℕ)
    → all_below test bound ≡ true
    → (n : ℕ) → n < bound
    → test n ≡ true
unfolding all_below
test-all_below test zero all n small = absurd (omega arith)
test-all_below test (suc top) all n small = ground (arith, test-all_below test top _ n)
