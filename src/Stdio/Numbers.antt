-- ===== src/Stdio/Numbers.antt =====
-- What `printf_number` of kernel/stdlib/stdio.c prints.
use toast_os.Prelude.{
  ℕ, zero, suc, ◌+◌, ◌-◌, ◌*◌, ◌/◌, ◌%◌, ◌^◌, ◌<◌, ◌≤◌, ◌≡◌, refl, ◌∙◌, ap, ap₂, sym, append-nil,
  Bool, true, false, none, some, List, [], ◌∷◌, ◌++◌, if◌then◌else◌, ltb, leb, arith, length,
  replicate, length-append, length-replicate, inl, inr, lt_or_le, u64, ◌&&◌, ◌==◌, ◌≢◌, All,
}
use native.Mathlib.Nat.{div-add-mod, div-lt_iff_lt-mul, mul-le-mul_left, mod-lt, mul_comm}
use toast_os.Stdio.{hex_digit, digits, reverse, printf_number, printf, Arg}

-- The value of a hexadecimal digit, and of digits with the first the most significant.
abbrev pub digit_value : ℕ → ℕ
digit_value c = if ltb c 58 then c - 48 else c - 87

abbrev pub read_from : ℕ → ℕ → List ℕ → ℕ
read_from radix acc [] = acc
read_from radix acc (c ∷ cs) = read_from radix (acc * radix + digit_value c) cs

digit_value-hex_digit : (d : ℕ) → d < 16 → digit_value (hex_digit d) ≡ d
digit_value-hex_digit d small = ground arith

read_from-snoc :
    (radix acc c : ℕ) (cs : List ℕ)
    → read_from radix acc (cs ++ c ∷ []) ≡ read_from radix acc cs * radix + digit_value c
read_from-snoc radix acc c [] = refl
read_from-snoc radix acc c (x ∷ cs) = read_from-snoc radix (acc * radix + digit_value x) c cs

module _ (radix : ℕ) (two : 2 ≤ radix) (sixteen : radix ≤ 16) where
  quotient-lt : (fuel n : ℕ) → n < 2 ^ suc fuel → n / radix < 2 ^ fuel
  quotient-lt fuel n h =
      let wide : 2 ^ fuel * 2 ≤ 2 ^ fuel * radix = mul-le-mul_left (2 ^ fuel) two in
      (div-lt_iff_lt-mul {k = radix} (omega arith)).1 (omega (arith, wide, h))

  pub read-digits :
      (fuel n : ℕ) → n < 2 ^ fuel → read_from radix 0 (reverse (digits fuel n radix)) ≡ n
  unfolding digits
  read-digits zero n h = omega (arith, h)
  read-digits (suc fuel) n h =
      let low =
        digit_value-hex_digit (n % radix) (omega (arith, mod-lt n {m = radix} (omega arith))) in
      let whole = div-add-mod n radix in
      let again = read-digits fuel (n / radix) (quotient-lt fuel n h) in
      elim (lt_or_le 0 (n / radix)) [
        | inl more ↦
            let test : ltb 0 (n / radix) ≡ true = ground arith in
            rw test (
              read_from-snoc radix 0 (hex_digit (n % radix))
                (reverse (digits fuel (n / radix) radix))
              ∙ ap₂ (λ a b. a * radix + b) again low
              ∙ ap (λ a. a + n % radix) (mul_comm (n / radix) radix)
              ∙ whole)
        | inr last ↦
            let test : ltb 0 (n / radix) ≡ false = ground arith in
            let none : n / radix ≡ 0 = omega arith in
            rw test (
              ap (λ a. 0 * radix + a) low
              ∙ omega (arith, sym (ap (λ a. radix * a + n % radix) none) ∙ whole))
      ]

pub length-digits : (radix : ℕ) → (fuel n : ℕ) → length (digits fuel n radix) ≤ fuel
unfolding digits
length-digits radix zero n = omega arith
length-digits radix (suc fuel) n = ground (arith, length-digits radix fuel (n / radix))

-- Without a width an unsigned number is printed as its digits.
pub printf_number-digits :
    (radix n : ℕ) → printf_number n false 0 radix 0 false ≡ some (reverse (digits 64 n radix))
unfolding printf_number
printf_number-digits radix n =
    let ds = digits 64 n radix in
    let short = length-digits radix 64 n in
    let no_pad : 0 - length ds ≡ 0 = omega arith in
    let fits : leb (length ds) 64 ≡ true = ground arith in rw (no_pad, append-nil ds, fits) refl

-- The bytes that printf_number prints for an unsigned number of 64 bits without a width, read as a
-- numeral in the radix, which is 2 to 16, give the number.
pub read_from-printf_number :
    (radix : ℕ)
    → 2 ≤ radix
    → radix ≤ 16
    → (n : ℕ) → n < 2 ^ 64
    → (out : List ℕ) × (printf_number n false 0 radix 0 false ≡ some out)
      × (read_from radix 0 out ≡ n)
read_from-printf_number radix two sixteen n h = (
  reverse (digits 64 n radix),
  printf_number-digits radix n,
  read-digits radix two sixteen 64 n h,
)

pub length-reverse : (cs : List ℕ) → length (reverse cs) ≡ length cs
length-reverse [] = refl
length-reverse (c ∷ cs) = omega (arith, length-append (reverse cs) (c ∷ []), length-reverse cs)

-- A field of at most 64 characters is printed in full, for an unsigned number; a wider one writes
-- past the end of buf, whatever the number.
pub printf_number_width :
    (n radix width : ℕ) (zero_pad : Bool)
    → (width ≤ 64
        → (out : List ℕ) × (printf_number n false 0 radix width zero_pad ≡ some out)
          × (width ≤ length out))
      × (64 < width
          → (is_signed : Bool) (v : ℕ) → printf_number n is_signed v radix width zero_pad ≡ none)
unfolding printf_number
printf_number_width n radix width zero_pad = (
  λ narrow.
      let ds = digits 64 n radix in
      let pad = if zero_pad then 48 else 32 in
      let buf = ds ++ replicate (width - length ds) pad in
      let short = length-digits radix 64 n in
      let len : length buf ≡ length ds + (width - length ds) =
        length-append ds (replicate (width - length ds) pad)
        ∙ ap (λ m. length ds + m) (length-replicate {A = ℕ} (width - length ds) pad) in
      let fits : leb (length buf) 64 ≡ true = ground arith in
      (reverse buf, rw fits refl, omega (arith, length-reverse buf, len)),
  λ wide is_signed v.
      too_long (if zero_pad then 48 else 32)
        (if is_signed && leb (2 ^ 63) v
          then digits 64 (if is_signed && leb (2 ^ 63) v then u64 (2 ^ 64 - v) else n) radix
            ++ 45 ∷ []
          else digits 64 (if is_signed && leb (2 ^ 63) v then u64 (2 ^ 64 - v) else n) radix)
        wide,
)
  where
    too_long :
        (pad : ℕ) (cs : List ℕ)
        → 64 < width
        → (if leb (length (cs ++ replicate (width - length cs) pad)) 64
            then some (reverse (cs ++ replicate (width - length cs) pad))
            else none)
          ≡ none
    too_long pad cs wide =
        let len : length (cs ++ replicate (width - length cs) pad)
            ≡ length cs + (width - length cs) =
          length-append cs (replicate (width - length cs) pad)
          ∙ ap (λ m. length cs + m) (length-replicate {A = ℕ} (width - length cs) pad) in
        let past : leb (length (cs ++ replicate (width - length cs) pad)) 64 ≡ false =
          ground arith in
        rw past refl

-- A format without % is printed as it stands.
pub printf-plain :
    (fmt : List ℕ) (args : List Arg) → All (λ c. c ≢ 37) fmt → printf fmt args ≡ some fmt
unfolding printf
printf-plain [] args plain = refl
printf-plain (c ∷ fmt) args (here, plain) =
    let test : (c == 37) ≡ false = ground arith in rw (test, printf-plain fmt args plain) refl
