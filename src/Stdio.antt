-- ===== src/Stdio.antt =====
-- `printf`, kernel/stdlib/stdio.c. The answer is what is printed, the characters that reach
-- `putchar`; `none` is a run that C leaves undefined: a write past `buf[64]`, a missing argument.
--
-- Characters are bytes. An argument is the pattern of its 64 bits, or the text that a pointer leads
-- to. A field width is a number: one that no longer fits an `int` is long past the buffer.
pub mod Calls
pub mod Ends
pub mod Numbers
pub mod Total
mod Tests
use toast_os.Prelude.{
  ℕ, zero, suc, ◌+◌, ◌-◌, ◌*◌, ◌/◌, ◌%◌, ◌^◌, Bool, true, false, Option, none, some, List, [], ◌∷◌,
  ◌++◌, if◌then◌else◌, ltb, leb, ◌==◌, length, replicate, ◌>>=◌, u64, not, ◌&&◌, ◌||◌,
}

pub data State : Type 0 where
  start flags field length_start length_l length_h spec : State

pub data Length : Type 0 where
  len_default len_hh len_h len_l len_ll : Length

abbrev pub is_long_long : Length → Bool
is_long_long len_ll = true
is_long_long _ = false

abbrev pub hex_digit : ℕ → ℕ
hex_digit d = if ltb d 10 then 48 + d else 87 + d

-- The digits, the last first. Each round at least halves the number, so 64 rounds are enough.
unfoldable pub digits : ℕ → (number radix : ℕ) → List ℕ
digits zero number radix = []
digits (suc fuel) number radix =
    let rest = digits fuel (number / radix) radix in
    hex_digit (number % radix) ∷ (if ltb 0 (number / radix) then rest else [])

abbrev pub reverse : List ℕ → List ℕ
reverse [] = []
reverse (c ∷ cs) = reverse cs ++ c ∷ []

abbrev pub buf_size : ℕ
buf_size = 64

-- `signed_val` is the pattern of an `int64_t`.
unfoldable pub printf_number :
    (number : ℕ)
    → (is_signed : Bool) → (signed_val radix width : ℕ) → (zero_pad : Bool) → Option (List ℕ)
printf_number number is_signed signed_val radix width zero_pad =
    let negative = is_signed && leb (2 ^ 63) signed_val in
    let magnitude = if negative then u64 (2 ^ 64 - signed_val) else number in
    let ds = digits 64 magnitude radix in
    let text = if negative then ds ++ 45 ∷ [] else ds in
    let pad = if zero_pad then 48 else 32 in
    let buf = text ++ replicate (width - length text) pad in
    if leb (length buf) buf_size then some (reverse buf) else none

pub data Arg : Type 0 where
  word : ℕ → Arg
  text : List ℕ → Arg

-- `va_arg` at an integer type and at `const char *`.
abbrev pub word_arg : List Arg → Option (ℕ × List Arg)
word_arg (word n ∷ args) = some (n, args)
word_arg _ = none

abbrev pub text_arg : List Arg → Option (List ℕ × List Arg)
text_arg (text s ∷ args) = some (s, args)
text_arg _ = none

-- The low `w` bits as a signed number, as the pattern of an `int64_t`.
abbrev pub sign_extend : ℕ → ℕ → ℕ
sign_extend w n =
    let low = n % 2 ^ w in if leb (2 ^ (w - 1)) low then low + (2 ^ 64 - 2 ^ w) else low

abbrev pub signed_of : Length → ℕ → ℕ
signed_of len_ll n = u64 n
signed_of len_l n = u64 n
signed_of len_h n = sign_extend 16 n
signed_of len_hh n = sign_extend 8 n
signed_of len_default n = sign_extend 32 n

abbrev pub unsigned_of : Length → ℕ → ℕ
unsigned_of len_ll n = u64 n
unsigned_of len_l n = u64 n
unsigned_of len_h n = n % 2 ^ 16
unsigned_of len_hh n = n % 2 ^ 8
unsigned_of len_default n = n % 2 ^ 32

-- The local variables of `vprintf_core`.
pub record Printf : Type 0 where
  pub state : State
  pub len : Length
  pub width : ℕ
  pub zero_pad : Bool

abbrev pub initial : Printf
initial = record { state = start; len = len_default; width = 0; zero_pad = false }

abbrev pub with_number : (ℕ → Option (List ℕ)) → List Arg → Option (List ℕ × List Arg)
with_number print args = do (n, args') ← word_arg args; out ← print n; some (out, args')

-- The label SPEC: what the specifier `c` prints, and the arguments that it leaves.
unfoldable pub print_spec : Printf → ℕ → List Arg → Option (List ℕ × List Arg)
unfolding printf_number
print_spec p c args =
    let signed : ℕ → Option (List ℕ) = λ n.
      let sv = signed_of p.len n in
      printf_number (if leb (2 ^ 63) sv then u64 (2 ^ 64 - sv) else sv) true sv 10 p.width
        p.zero_pad in
    let unsigned : ℕ → Option (List ℕ) =
      λ n. printf_number (unsigned_of p.len n) false 0 10 p.width p.zero_pad in
    let hex : ℕ → Option (List ℕ) = λ n.
      printf_number (if (c == 112) || is_long_long p.len then u64 n else unsigned_of p.len n) false
        0 16 p.width p.zero_pad in
    let octal : ℕ → Option (List ℕ) =
      λ n. printf_number (n % 2 ^ 32) false 0 8 p.width p.zero_pad in
    if c == 99
    then with_number (λ n. some (n % 2 ^ 8 ∷ [])) args
    else if c == 115
    then text_arg args
    else if c == 37
    then some (37 ∷ [], args)
    else if (c == 100) || (c == 105)
    then with_number signed args
    else if c == 117
    then with_number unsigned args
    else if (c == 120) || ((c == 88) || (c == 112))
    then with_number hex args
    else if c == 111
    then with_number octal args
    else some (63 ∷ [], args)

-- One turn of the loop, the fall-throughs from state to state written out.
abbrev pub at_spec : Printf → ℕ → List Arg → Option (List ℕ × Printf × List Arg)
at_spec p c args = do (out, args') ← print_spec p c args; some (out, initial, args')

abbrev pub at_length : Printf → ℕ → List Arg → Option (List ℕ × Printf × List Arg)
at_length p c args =
    if c == 108
    then some ([], record p { state = length_l }, args)
    else if c == 104
    then some ([], record p { state = length_h }, args)
    else at_spec p c args

abbrev pub at_width : Printf → ℕ → List Arg → Option (List ℕ × Printf × List Arg)
at_width p c args =
    if leb 49 c && leb c 57
    then some ([], record p { state = field; width = p.width * 10 + (c - 48) }, args)
    else at_length (record p { state = length_start }) c args

abbrev pub turn : Printf → State → ℕ → List Arg → Option (List ℕ × Printf × List Arg)
turn p start c args =
    if c == 37 then some ([], record initial { state = flags }, args) else some (c ∷ [], p, args)
turn p flags c args =
    if c == 48 then some ([], record p { zero_pad = true }, args) else at_width p c args
turn p field c args = at_width p c args
turn p length_start c args = at_length p c args
turn p length_l c args =
    if c == 108
    then some ([], record p { len = len_ll; state = spec }, args)
    else at_spec (record p { len = len_l }) c args
turn p length_h c args =
    if c == 104
    then some ([], record p { len = len_hh; state = spec }, args)
    else at_spec (record p { len = len_h }) c args
turn p spec c args = at_spec p c args

-- `fmt` without its final NUL.
unfoldable pub vprintf_core : Printf → (fmt : List ℕ) → List Arg → Option (List ℕ)
vprintf_core p [] args = some []
vprintf_core p (c ∷ fmt) args = do
  (out, p', args') ← turn p p.state c args
  more ← vprintf_core p' fmt args'
  some (out ++ more)

unfoldable pub printf : (fmt : List ℕ) → List Arg → Option (List ℕ)
unfolding vprintf_core
printf fmt args = vprintf_core initial fmt args
