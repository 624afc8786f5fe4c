-- ===== src/Keyboard/Ring.antt =====
-- The ring of kernel/drivers/kb.c as a queue.
use toast_os.Prelude.{
  ℕ, zero, suc, ◌+◌, ◌%◌, ◌^◌, ◌<◌, ◌≤◌, ◌≡◌, ◌≢◌, refl, ◌∙◌, ap, true, false, List, [], ◌∷◌, ◌++◌,
  none, some, ltb, leb, ◌==◌, if◌then◌else◌, arith, u32, sub32, bit_and, get_or, set, length,
  length-set, get_or-set_self, get_or-set_ne, ◌⊎◌, inl, inr, lt_or_le, Bool-cases, ap₂,
}
use toast_os.Prelude.Bits.{and-ones}
use toast_os.Keyboard.{Kb, kb_enqueue, kb_haschar, kb_getchar}

-- `n` characters from the position `at` on.
abbrev pub items : List ℕ → ℕ → ℕ → List ℕ
items buf at zero = []
items buf at (suc n) = get_or buf (at % 256) 0 ∷ items buf (at + 1) n

-- The characters that are waiting, the oldest first.
abbrev pub waiting : Kb → List ℕ
waiting kb = items kb.kbuf kb.kbuf_tail (sub32 kb.kbuf_head kb.kbuf_tail)

pub record IsValid (kb : Kb) : Type 0 where
  pub sized : length kb.kbuf ≡ 256
  pub head_word : kb.kbuf_head < 2 ^ 32
  pub tail_word : kb.kbuf_tail < 2 ^ 32
  pub room : sub32 kb.kbuf_head kb.kbuf_tail ≤ 256

items-set :
    (buf : List ℕ) (at n j c : ℕ)
    → ((i : ℕ) → i < n → (at + i) % 256 ≢ j)
    → items (set buf j c) at n ≡ items buf at n
items-set buf at zero j c apart = refl
items-set buf at (suc n) j c apart =
    let here = get_or-set_ne buf j (at % 256) c 0 (λ e. apart 0 (omega arith) (omega (arith, e))) in
    let rest =
      items-set buf (at + 1) n j c (λ i lt e. apart (i + 1) (omega arith) (omega (arith, e))) in
    rw (here, rest) refl

items-snoc :
    (buf : List ℕ) (at n : ℕ)
    → items buf at (suc n) ≡ items buf at n ++ get_or buf ((at + n) % 256) 0 ∷ []
items-snoc buf at zero = ap (λ i. get_or buf (i % 256) 0 ∷ []) (omega arith)
items-snoc buf at (suc n) =
    ap (λ l. get_or buf (at % 256) 0 ∷ l)
      (items-snoc buf (at + 1) n
        ∙ ap (λ i. items buf (at + 1) n ++ get_or buf (i % 256) 0 ∷ []) (omega arith))

items-mod : (buf : List ℕ) (a b n : ℕ) → a % 256 ≡ b % 256 → items buf a n ≡ items buf b n
items-mod buf a b zero e = refl
items-mod buf a b (suc n) e = rw (e, items-mod buf (a + 1) (b + 1) n (omega (arith, e))) refl

length-items : (buf : List ℕ) (at n : ℕ) → length (items buf at n) ≡ n
length-items buf at zero = refl
length-items buf at (suc n) = ap suc (length-items buf (at + 1) n)

-- `x & (KB_BUF_SIZE - 1)` is the position in the ring.
position : (a : ℕ) → bit_and a 255 ≡ a % 256
position a = and-ones 8 a

-- On a valid ring, a typed character comes behind those that are waiting; when 256 are, it is
-- lost.
pub kb_enqueue_lem :
    (kb : Kb) (c : ℕ)
    → IsValid kb
    → IsValid (kb_enqueue kb c)
      × (waiting (kb_enqueue kb c)
          ≡ (if ltb (length (waiting kb)) 256 then waiting kb ++ c ∷ [] else waiting kb))
unfolding kb_enqueue
kb_enqueue_lem kb c v =
    let n = sub32 kb.kbuf_head kb.kbuf_tail in
    let len = length-items kb.kbuf kb.kbuf_tail n in
    elim (lt_or_le n 256) [
      | inr full ↦
          let test : leb 256 n ≡ true = ground arith in
          let far : ltb (length (waiting kb)) 256 ≡ false = ground arith in rw (test, far) (v, refl)
      | inl free ↦
          let test : leb 256 n ≡ false = ground arith in
          let near : ltb (length (waiting kb)) 256 ≡ true = ground arith in
          let buf = set kb.kbuf (kb.kbuf_head % 256) c in
          let next : sub32 (u32 (kb.kbuf_head + 1)) kb.kbuf_tail ≡ suc n =
            omega (arith, v.head_word, v.tail_word) in
          let at : (kb.kbuf_tail + n) % 256 ≡ kb.kbuf_head % 256 =
            omega (arith, v.head_word, v.tail_word) in
          let same : items buf kb.kbuf_tail n ≡ waiting kb =
            items-set kb.kbuf kb.kbuf_tail n (kb.kbuf_head % 256) c
              (λ i lt e. omega (arith, at, e)) in
          let here : get_or buf ((kb.kbuf_tail + n) % 256) 0 ≡ c =
            ap (λ i. get_or buf i 0) at
            ∙ get_or-set_self kb.kbuf (kb.kbuf_head % 256) c 0 (omega (arith, v.sized)) in
          rw (test, near, position kb.kbuf_head)
            (
              record {
                sized = length-set kb.kbuf (kb.kbuf_head % 256) c ∙ v.sized;
                head_word = omega arith;
                tail_word = v.tail_word;
                room = omega (arith, next);
              },
              ap (items buf kb.kbuf_tail) next
                  ∙ items-snoc buf kb.kbuf_tail n
                  ∙ ap₂ (λ l x. l ++ x ∷ []) same here,
            )
    ]

-- On a valid ring, kb_getchar takes the oldest of the waiting characters, and waits exactly if
-- there is none.
pub kb_getchar_lem :
    (kb : Kb)
    → IsValid kb
    → (waiting kb ≡ [] × kb_getchar kb ≡ none)
      ⊎ ((c : ℕ) × (kb' : Kb) × (kb_getchar kb ≡ some (c, kb'))
          × IsValid kb'
          × (waiting kb ≡ c ∷ waiting kb'))
unfolding kb_getchar kb_haschar
kb_getchar_lem kb v = elim (Bool-cases (kb.kbuf_head == kb.kbuf_tail)) [
  | inl empty ↦
      let same : kb.kbuf_head ≡ kb.kbuf_tail = ground arith in
      let none_left : sub32 kb.kbuf_head kb.kbuf_tail ≡ 0 = omega (arith, v.tail_word) in
      inl (ap (items kb.kbuf kb.kbuf_tail) none_left, rw empty refl)
  | inr some_left ↦
      let differ : kb.kbuf_head ≢ kb.kbuf_tail = λ e. ground arith in
      let kb' = record kb { kbuf_tail = u32 (kb.kbuf_tail + 1) } in
      let left = sub32 kb.kbuf_head (u32 (kb.kbuf_tail + 1)) in
      let count : sub32 kb.kbuf_head kb.kbuf_tail ≡ suc left =
        omega (arith, v.head_word, v.tail_word, differ) in
      inr (
        get_or kb.kbuf (kb.kbuf_tail % 256) 0,
        kb',
        rw (some_left, position kb.kbuf_tail) refl,
        record {
          sized = v.sized;
          head_word = v.head_word;
          tail_word = omega arith;
          room = omega (arith, count, v.room);
        },
        ap (items kb.kbuf kb.kbuf_tail) count
            ∙ ap (λ l. get_or kb.kbuf (kb.kbuf_tail % 256) 0 ∷ l)
                (items-mod kb.kbuf (kb.kbuf_tail + 1) (u32 (kb.kbuf_tail + 1)) left (omega arith)),
      )
]
