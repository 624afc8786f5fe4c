-- ===== src/Stdio/Total.antt =====
-- When `printf` of kernel/stdlib/stdio.c returns: it depends on the format and the kinds of the
-- arguments, not on their values.
use toast_os.Prelude.{
  ℕ, zero, suc, ◌+◌, ◌-◌, ◌*◌, ◌/◌, ◌%◌, ◌^◌, ◌<◌, ◌≤◌, ◌≡◌, refl, ap, ◌∙◌, Bool, true, false,
  Option, some, Option-cases, List, [], ◌∷◌, ◌++◌, if◌then◌else◌, leb, ◌==◌, ◌&&◌, ◌||◌, arith,
  length, replicate, length-append, length-replicate, inl, inr, u64, lt_or_le,
}
use toast_os.Stdio.{
  State, Length, Printf, Arg, word, text, digits, reverse, printf_number, with_number, text_arg,
  print_spec, at_spec, at_length, at_width, turn, vprintf_core, printf, initial, signed_of,
  unsigned_of, is_long_long,
}
use toast_os.Stdio.Numbers.{printf_number_width}

-- The arguments with their values taken out: 0 for a number, an empty text for a text.
abbrev pub blank : List Arg → List Arg
blank [] = []
blank (word n ∷ args) = word 0 ∷ blank args
blank (text s ∷ args) = text [] ∷ blank args

-- A decimal number of 64 bits has 20 digits at most.
length-digits_decimal : (k fuel n : ℕ) → n < 10 ^ suc k → length (digits fuel n 10) ≤ suc k
unfolding digits
length-digits_decimal k zero n h = omega arith
length-digits_decimal zero (suc fuel) n h = ground arith
length-digits_decimal (suc k) (suc fuel) n h =
    let more = length-digits_decimal k fuel (n / 10) (omega (arith, h)) in ground (arith, more)

-- A number of any value returns wherever one of another value does.
unsigned_returns :
    (radix width : ℕ) (zero_pad : Bool) (m n : ℕ) {out : List ℕ}
    → printf_number m false 0 radix width zero_pad ≡ some out
    → (out' : List ℕ) × (printf_number n false 0 radix width zero_pad ≡ some out')
unsigned_returns radix width zero_pad m n h = elim (lt_or_le 64 width) [
  | inl wide ↦ cc ((printf_number_width m radix width zero_pad).1 wide false 0)
  | inr narrow ↦
      let (out', e, _) = (printf_number_width n radix width zero_pad).0 narrow in (out', e)
]

signed_fits :
    (width n v pad : ℕ)
    → n < 2 ^ 64
    → width ≤ 64
    → let negative = leb (2 ^ 63) v in
      let ds = digits 64 (if negative then u64 (2 ^ 64 - v) else n) 10 in
      let text = if negative then ds ++ 45 ∷ [] else ds in
      leb (length (text ++ replicate (width - length text) pad)) 64 ≡ true
signed_fits width n v pad small narrow =
    let negative = leb (2 ^ 63) v in
    let magnitude = if negative then u64 (2 ^ 64 - v) else n in
    let ds = digits 64 magnitude 10 in
    let text = if negative then ds ++ 45 ∷ [] else ds in
    let short = length-digits_decimal 19 64 magnitude (ground arith) in
    let sign = length-append ds (45 ∷ []) in
    let text_short : length text ≤ 21 = ground (arith, short, sign) in
    let whole = length-append text (replicate (width - length text) pad) in
    let padding = length-replicate {A = ℕ} (width - length text) pad in
    ground (arith, text_short, whole, padding)

signed_returns :
    (width : ℕ) (zero_pad : Bool) (m s n v : ℕ) {out : List ℕ}
    → n < 2 ^ 64
    → printf_number m true s 10 width zero_pad ≡ some out
    → (out' : List ℕ) × (printf_number n true v 10 width zero_pad ≡ some out')
unfolding printf_number
signed_returns width zero_pad m s n v small h = elim (lt_or_le 64 width) [
  | inl wide ↦ cc ((printf_number_width m 10 width zero_pad).1 wide true s)
  | inr narrow ↦
      let pad = if zero_pad then 48 else 32 in
      let ds = digits 64 (if leb (2 ^ 63) v then u64 (2 ^ 64 - v) else n) 10 in
      let text = if leb (2 ^ 63) v then ds ++ 45 ∷ [] else ds in
      (
        reverse (text ++ replicate (width - length text) pad),
        rw (signed_fits width n v pad small narrow) refl,
      )
]

-- What `g` does with blank arguments it does with any, but for what it prints: where one returns so
-- does the other, having taken the same arguments.
abbrev Uniform : (List Arg → Option (List ℕ × List Arg)) → Type 0
Uniform g =
    (args : List Arg) (out : List ℕ) (left : List Arg)
    → g (blank args) ≡ some (out, left)
    → (out' : List ℕ) × (left' : List Arg) × (g args ≡ some (out', left')) × (blank left' ≡ left)

Uniform-if :
    (b : Bool) (g h : List Arg → Option (List ℕ × List Arg))
    → Uniform g
    → Uniform h
    → Uniform (λ args. if b then g args else h args)
Uniform-if true g h u v = u
Uniform-if false g h u v = v

Uniform-some : (out : List ℕ) → Uniform (λ args. some (out, args))
Uniform-some out args out' left h = (out, args, refl, cc)

Uniform-text_arg : Uniform text_arg
Uniform-text_arg [] out left h = cc
Uniform-text_arg (word n ∷ args) out left h = cc
Uniform-text_arg (text s ∷ args) out left h = (s, args, refl, cc)

Uniform-with_number :
    (print : ℕ → Option (List ℕ))
    → ((n : ℕ) (out : List ℕ) → print 0 ≡ some out → (out' : List ℕ) × (print n ≡ some out'))
    → Uniform (with_number print)
Uniform-with_number print same [] out left h = cc
Uniform-with_number print same (text s ∷ args) out left h = cc
Uniform-with_number print same (word n ∷ args) out left h = elim (Option-cases (print 0)) [
  | inl e ↦ cc (rw e at h)
  | inr (o, e) ↦
      let (out', e') = same n o e in
      let rest : blank args ≡ left = cc (rw e at h) in (out', args, rw e' refl, rest)
]

signed_of-lt : (len : Length) (n : ℕ) → signed_of len n < 2 ^ 64
signed_of-lt Length.len_default n = ground arith
signed_of-lt Length.len_hh n = ground arith
signed_of-lt Length.len_h n = ground arith
signed_of-lt Length.len_l n = ground arith
signed_of-lt Length.len_ll n = ground arith

Uniform-unsigned :
    (radix width : ℕ) (zero_pad : Bool) (value : ℕ → ℕ)
    → Uniform (with_number (λ n. printf_number (value n) false 0 radix width zero_pad))
Uniform-unsigned radix width zero_pad value =
    Uniform-with_number (λ n. printf_number (value n) false 0 radix width zero_pad)
      (λ n out h. unsigned_returns radix width zero_pad (value 0) (value n) h)

abbrev magnitude : ℕ → ℕ
magnitude sv = if leb (2 ^ 63) sv then u64 (2 ^ 64 - sv) else sv

Uniform-signed :
    (len : Length) (width : ℕ) (zero_pad : Bool)
    → Uniform (
        with_number (λ n.
          printf_number (magnitude (signed_of len n)) true (signed_of len n) 10 width zero_pad))
Uniform-signed len width zero_pad =
    Uniform-with_number
      (λ n. printf_number (magnitude (signed_of len n)) true (signed_of len n) 10 width zero_pad)
      (λ n out h.
        let small = signed_of-lt len n in
        signed_returns width zero_pad (magnitude (signed_of len 0)) (signed_of len 0)
          (magnitude (signed_of len n)) (signed_of len n) (ground (arith, small)) h)

Uniform-print_spec : (p : Printf) (c : ℕ) → Uniform (print_spec p c)
unfolding print_spec
Uniform-print_spec p c =
    Uniform-if (c == 99) (with_number (λ n. some (n % 2 ^ 8 ∷ []))) _
      (Uniform-with_number (λ n. some (n % 2 ^ 8 ∷ [])) (λ n out h. (n % 2 ^ 8 ∷ [], refl)))
      (Uniform-if (c == 115) _ _ Uniform-text_arg (
        Uniform-if (c == 37) _ _ (Uniform-some (37 ∷ [])) (
          Uniform-if ((c == 100) || (c == 105)) _ _ (Uniform-signed p.len p.width p.zero_pad) (
            Uniform-if (c == 117) _ _
              (Uniform-unsigned 10 p.width p.zero_pad (λ n. unsigned_of p.len n))
              (Uniform-if ((c == 120) || ((c == 88) || (c == 112))) _ _
                (Uniform-unsigned 16 p.width p.zero_pad
                  (λ n. if (c == 112) || is_long_long p.len then u64 n else unsigned_of p.len n))
                (Uniform-if (c == 111) _ _ (Uniform-unsigned 8 p.width p.zero_pad (λ n. n % 2 ^ 32))
                  (Uniform-some (63 ∷ []))))))))

-- The same for a turn of the loop, which goes on in the same state.
abbrev Turns : (List Arg → Option (List ℕ × Printf × List Arg)) → Type 0
Turns g =
    (args : List Arg) (out : List ℕ) (p : Printf) (left : List Arg)
    → g (blank args) ≡ some (out, p, left)
    → (out' : List ℕ) × (left' : List Arg) × (g args ≡ some (out', p, left')) × (blank left' ≡ left)

Turns-if :
    (b : Bool) (g h : List Arg → Option (List ℕ × Printf × List Arg))
    → Turns g
    → Turns h
    → Turns (λ args. if b then g args else h args)
Turns-if true g h u v = u
Turns-if false g h u v = v

Turns-some : (out : List ℕ) (p : Printf) → Turns (λ args. some (out, p, args))
Turns-some out p args out' p' left h =
    let same : p ≡ p' = cc h in
    let rest : blank args ≡ left = cc h in (out, args, rw same refl, rest)

Turns-at_spec : (p : Printf) (c : ℕ) → Turns (at_spec p c)
Turns-at_spec p c args out p' left h = elim (Option-cases (print_spec p c (blank args))) [
  | inl e ↦ cc (rw e at h)
  | inr ((o, l), e) ↦
      let (out', left', e', rest) = Uniform-print_spec p c args o l e in
      let same : initial ≡ p' = cc (rw e at h) in
      let taken : l ≡ left = cc (rw e at h) in (out', left', rw (e', same) refl, rest ∙ taken)
]

Turns-at_length : (p : Printf) (c : ℕ) → Turns (at_length p c)
Turns-at_length p c =
    Turns-if (c == 108) _ _ (Turns-some [] (record p { state = State.length_l })) (
      Turns-if (c == 104) _ _ (Turns-some [] (record p { state = State.length_h }))
        (Turns-at_spec p c))

Turns-at_width : (p : Printf) (c : ℕ) → Turns (at_width p c)
Turns-at_width p c =
    Turns-if (leb 49 c && leb c 57) _ _
      (Turns-some [] (record p { state = State.field; width = p.width * 10 + (c - 48) }))
      (Turns-at_length (record p { state = State.length_start }) c)

Turns-turn : (p : Printf) (s : State) (c : ℕ) → Turns (turn p s c)
Turns-turn p State.start c =
    Turns-if (c == 37) _ _ (Turns-some [] (record initial { state = State.flags }))
      (Turns-some (c ∷ []) p)
Turns-turn p State.flags c =
    Turns-if (c == 48) _ _ (Turns-some [] (record p { zero_pad = true })) (Turns-at_width p c)
Turns-turn p State.field c = Turns-at_width p c
Turns-turn p State.length_start c = Turns-at_length p c
Turns-turn p State.length_l c =
    Turns-if (c == 108) _ _ (Turns-some [] (record p { len = Length.len_ll; state = State.spec }))
      (Turns-at_spec (record p { len = Length.len_l }) c)
Turns-turn p State.length_h c =
    Turns-if (c == 104) _ _ (Turns-some [] (record p { len = Length.len_hh; state = State.spec }))
      (Turns-at_spec (record p { len = Length.len_h }) c)
Turns-turn p State.spec c = Turns-at_spec p c

vprintf_core_returns :
    (p : Printf) (fmt : List ℕ) (args : List Arg) {out : List ℕ}
    → vprintf_core p fmt (blank args) ≡ some out
    → (out' : List ℕ) × (vprintf_core p fmt args ≡ some out')
unfolding vprintf_core
vprintf_core_returns p [] args h = ([], refl)
vprintf_core_returns p (c ∷ fmt) args {out} h =
    elim (Option-cases (turn p p.state c (blank args))) [
      | inl e ↦ cc (rw e at h)
      | inr ((o, p1, l), e) ↦
          let (o', l', e', taken) = Turns-turn p p.state c args o p1 l e in
          elim (Option-cases (vprintf_core p1 fmt l)) [
            | inl stop ↦ cc (rw (e, stop) at h)
            | inr (more, rest) ↦
                let (more', rest') =
                  vprintf_core_returns p1 fmt l' (ap (vprintf_core p1 fmt) taken ∙ rest) in
                rw (e', rest') (o' ++ more', refl)
          ]
    ]

-- Where printf returns on a format with blank arguments, it returns on that format with any
-- arguments of the same kinds, whatever their values.
pub printf-blank :
    (fmt : List ℕ) (args : List Arg) {out : List ℕ}
    → printf fmt (blank args) ≡ some out
    → (out' : List ℕ) × (printf fmt args ≡ some out')
unfolding printf
printf-blank fmt args h = vprintf_core_returns initial fmt args h
