-- ===== src/Pmm/Frames.antt =====
-- The bitmap as a set of frames, and what `pmm_alloc` and `pmm_free` do to it.
use toast_os.Prelude.{
  ℕ, zero, suc, ◌+◌, ◌*◌, ◌/◌, ◌%◌, ◌^◌, ◌≤◌, ◌<◌, ◌≡◌, refl, ◌∙◌, ap, sym, ◌==◌, ==_iff,
  if◌then◌else◌, arith, inl, inr, ◌⊎◌, lt_or_le, Bool-cases, Option-cases, List, [], ◌∷◌, none,
  some, length, get_or, set, get_or-set_self, get_or-default, get_or-set_ne, All,
}
use toast_os.Prelude.Bits.{bit, bit-le_one}
use toast_os.Pmm.{Pmm, find_bit, find_frame}
use toast_os.Pmm.Bitmap.{test_bit-bit, zeros, bit-ones}

-- Bit `frame` of the bitmap; a frame past its end counts as in use.
abbrev pub mark : List ℕ → ℕ → ℕ
mark b_map frame = bit (get_or b_map (frame / 8) 255) (frame % 8)

abbrev pub Used : Pmm → ℕ → Type 0
Used pmm frame = mark pmm.b_map frame ≡ 1

abbrev pub Free : Pmm → ℕ → Type 0
Free pmm frame = mark pmm.b_map frame ≡ 0

-- How many frames of the bitmap are free.
abbrev pub count_free : List ℕ → ℕ
count_free [] = 0
count_free (b ∷ bs) = zeros 8 b + count_free bs

-- Bytes are bytes, the addresses of all frames fit a `uint64_t`, and the count is right.
pub record IsValid (pmm : Pmm) : Type 0 where
  pub sized : pmm.bitmap_bytes ≡ length pmm.b_map
  pub bytes : All (λ b. b < 256) pmm.b_map
  pub fits : pmm.bitmap_bytes * 8 * 4096 ≤ 2 ^ 64
  pub counted : pmm.free_frames ≡ count_free pmm.b_map

-- What the search over one byte returns: the first clear bit.
module _ (b : ℕ) where
  find_bit-some :
      (k n i : ℕ)
      → find_bit b k n ≡ some i
      → (k ≤ i) × (i < k + n) × (bit b i ≡ 0) × ((j : ℕ) → k ≤ j → j < i → bit b j ≡ 1)
  unfolding find_bit
  find_bit-some k zero i e = cc
  find_bit-some k (suc n) i e = elim (Bool-cases (bit b k == 1)) [
    | inl set ↦
        let (lo, hi, clear, below) = find_bit-some (k + 1) n i (ground (arith, test_bit-bit b k)) in
        (
          omega arith,
          omega arith,
          clear,
          λ j p q. elim (lt_or_le k j) [
            | inl lt ↦ below j (omega arith) q
            | inr le ↦ ap (bit b) {x = j} {y = k} (omega arith) ∙ (==_iff _ _).0 set
          ],
        )
    | inr clear ↦
        let here : k ≡ i = ground (arith, test_bit-bit b k) in
        (omega arith, omega arith, ground (arith, bit-le_one k b), λ j p q. absurd (omega arith))
  ]

  find_bit-none : (k n : ℕ) → find_bit b k n ≡ none → (j : ℕ) → k ≤ j → j < k + n → bit b j ≡ 1
  unfolding find_bit
  find_bit-none k zero e j p q = absurd (omega arith)
  find_bit-none k (suc n) e j p q = elim (lt_or_le k j) [
    | inl lt ↦
        find_bit-none (k + 1) n (ground (arith, test_bit-bit b k)) j (omega arith) (omega arith)
    | inr le ↦ let here : k ≡ j = omega arith in ground (arith, test_bit-bit b k)
  ]

-- What the search over the bytes returns: the first free frame.
module _ (b_map : List ℕ) where
  abbrev pub Full : ℕ → Type 0
  Full i = (j : ℕ) → j < 8 → bit (get_or b_map i 0) j ≡ 1

  pub mark_byte :
      (i g : ℕ) → i < length b_map → g / 8 ≡ i → mark b_map g ≡ bit (get_or b_map i 0) (g % 8)
  mark_byte i g le e = rw (e, get_or-default b_map i 255 0 le)

  -- One round: the byte is full and the search goes on, or it has the frame.
  find_frame_step :
      (i n : ℕ)
      → (Full i × (find_frame b_map i (suc n) ≡ find_frame b_map (i + 1) n))
        ⊎ ((k : ℕ) × (find_bit (get_or b_map i 0) 0 8 ≡ some k)
            × (find_frame b_map i (suc n) ≡ some (i * 8 + k)))
  unfolding find_frame
  find_frame_step i n = elim (Bool-cases (get_or b_map i 0 == 255)) [
    | inl full ↦ inl (λ j h. rw ((==_iff _ _).0 full) (bit-ones j h), rw full)
    | inr more ↦ elim (Option-cases (find_bit (get_or b_map i 0) 0 8)) [
      | inl e ↦ inl (λ j h. find_bit-none _ 0 8 e j (omega arith) (omega arith), rw (more, e))
      | inr (k, e) ↦ inr (k, e, rw (more, e))
    ]
  ]

  pub find_frame-some :
      (i n f : ℕ)
      → i + n ≤ length b_map
      → find_frame b_map i n ≡ some f
      → (i * 8 ≤ f)
        × (f < (i + n) * 8)
        × (mark b_map f ≡ 0)
        × ((g : ℕ) → i * 8 ≤ g → g < f → mark b_map g ≡ 1)
  find_frame-some i zero f le e = absurd (unfold find_frame in cc)
  find_frame-some i (suc n) f le e = elim (find_frame_step i n) [
    | inl (full, same) ↦
        let (lo, hi, clear, below) = find_frame-some (i + 1) n f (omega arith) (sym same ∙ e) in
        (
          omega arith,
          omega arith,
          clear,
          λ g p q. elim (lt_or_le g ((i + 1) * 8)) [
            | inl lt ↦ mark_byte i g (omega arith) (omega arith) ∙ full (g % 8) (omega arith)
            | inr le' ↦ below g le' q
          ],
        )
    | inr (k, found, here) ↦
        let (lo, hi, clear, below) = find_bit-some (get_or b_map i 0) 0 8 k found in
        let at : i * 8 + k ≡ f = ground (arith, here, e) in
        (
          omega arith,
          omega arith,
          mark_byte i f (omega arith) (omega arith)
              ∙ ap (bit (get_or b_map i 0)) {x = f % 8} {y = k} (omega arith)
              ∙ clear,
          λ g p q.
              mark_byte i g (omega arith) (omega arith) ∙ below (g % 8) (omega arith) (omega arith),
        )
  ]

  pub find_frame-none :
      (i n : ℕ)
      → i + n ≤ length b_map
      → find_frame b_map i n ≡ none
      → (g : ℕ) → i * 8 ≤ g
      → g < (i + n) * 8
      → mark b_map g ≡ 1
  find_frame-none i zero le e g p q = absurd (omega arith)
  find_frame-none i (suc n) le e g p q = elim (find_frame_step i n) [
    | inl (full, same) ↦ elim (lt_or_le g ((i + 1) * 8)) [
      | inl lt ↦ mark_byte i g (omega arith) (omega arith) ∙ full (g % 8) (omega arith)
      | inr le' ↦ find_frame-none (i + 1) n (omega arith) (sym same ∙ e) g le' (omega arith)
    ]
    | inr (k, found, here) ↦ cc
  ]

-- A write to one byte, seen through the frames.
module _ (b_map : List ℕ) (frame v : ℕ) (inside : frame / 8 < length b_map) where
  pub mark-set :
      (g : ℕ)
      → mark (set b_map (frame / 8) v) g
        ≡ (if g / 8 == frame / 8 then bit v (g % 8) else mark b_map g)
  mark-set g = elim (Bool-cases (g / 8 == frame / 8)) [
    | inl e ↦
        let e' : g / 8 ≡ frame / 8 = (==_iff _ _).0 e in
        rw (e, e', get_or-set_self b_map (frame / 8) v 255 inside)
    | inr ne ↦ rw (ne, get_or-set_ne b_map (frame / 8) (g / 8) v 255 (ground arith))
  ]

pub count_free-set :
    (bs : List ℕ) (i v : ℕ)
    → i < length bs
    → count_free (set bs i v) + zeros 8 (get_or bs i 0) ≡ count_free bs + zeros 8 v
count_free-set [] i v h = absurd (omega arith)
count_free-set (b ∷ bs) zero v h = omega arith
count_free-set (b ∷ bs) (suc i) v h = omega (arith, count_free-set bs i v (omega arith))

zeros-le : (k b : ℕ) → zeros k b ≤ k
zeros-le zero b = omega arith
zeros-le (suc k) b = omega (arith, zeros-le k b)

pub count_free-le : (bs : List ℕ) → count_free bs ≤ length bs * 8
count_free-le [] = omega arith
count_free-le (b ∷ bs) = omega (arith, zeros-le 8 b, count_free-le bs)

-- If every frame is in use, none is counted as free.
zeros-full : (k b : ℕ) → ((j : ℕ) → j < k → bit b j ≡ 1) → zeros k b ≡ 0
zeros-full zero b h = refl
zeros-full (suc k) b h =
    omega (arith, h k (omega arith), zeros-full k b (λ j lt. h j (omega arith)))

mark-cons : (b : ℕ) (bs : List ℕ) (g : ℕ) → mark (b ∷ bs) (g + 8) ≡ mark bs g
mark-cons b bs g =
    let q : (g + 8) / 8 ≡ suc (g / 8) = omega arith in
    let r : (g + 8) % 8 ≡ g % 8 = omega arith in rw (q, r)

mark-head : (b : ℕ) (bs : List ℕ) (g : ℕ) → g < 8 → mark (b ∷ bs) g ≡ bit b g
mark-head b bs g h = let q : g / 8 ≡ 0 = omega arith in let r : g % 8 ≡ g = omega arith in rw (q, r)

pub count_free-full :
    (bs : List ℕ) → ((g : ℕ) → g < length bs * 8 → mark bs g ≡ 1) → count_free bs ≡ 0
count_free-full [] h = refl
count_free-full (b ∷ bs) h = omega (
  arith,
  zeros-full 8 b (λ j lt. sym (mark-head b bs j lt) ∙ h j (omega arith)),
  count_free-full bs (λ g lt. sym (mark-cons b bs g) ∙ h (g + 8) (omega arith)),
)
