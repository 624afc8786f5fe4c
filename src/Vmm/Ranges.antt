-- ===== src/Vmm/Ranges.antt =====
-- What `vmm_user_range_ok` vouches for.
use mathlib.Core.Path.{subst}
use toast_os.Prelude.{
  ℕ, zero, suc, ◌+◌, ◌-◌, ◌*◌, ◌/◌, ◌%◌, ◌^◌, ◌≤◌, ◌<◌, ◌≡◌, ◌≢◌, refl, ◌∙◌, ap, ap₂, sym, Bool,
  true, false, some, List, [], ◌∷◌, ◌==◌, arith, inl, inr, lt_or_le, Bool-cases, Option-cases,
  if◌then◌else◌, ◌&&◌, ◌||◌, not, ltb, leb, u64, bit_and,
}
use toast_os.Prelude.Bits.{and-field}
use toast_os.Vmm.{Vmm, present, writable, user, huge, frame_of, index, user_space_end}
use toast_os.Vmm.Users.{indices, walk_levels, walk_user, pages_ok, vmm_user_range_ok}
use toast_os.Vmm.Tables.{Leaf, Leaf.leaf, look}
use toast_os.Vmm.Translate.{index-field, view}

indices-page : (v w : ℕ) → v / 4096 ≡ w / 4096 → indices v ≡ indices w
indices-page v w e =
    let i : (s : ℕ) → v / 2 ^ s % 512 ≡ w / 2 ^ s % 512 → index s v ≡ index s w =
      λ s p. index-field s v ∙ p ∙ sym (index-field s w) in
    ap₂ (λ a l. a ∷ l) (i 39 (omega (arith, e)))
      (ap₂ (λ a l. a ∷ l) (i 30 (omega (arith, e)))
        (ap₂ (λ a l. a ∷ l) (i 21 (omega (arith, e)))
          (ap₂ (λ a l. a ∷ l) (i 12 (omega (arith, e))) refl)))

page_start : (v : ℕ) → v < 2 ^ 64 → bit_and v (2 ^ 64 - 4096) ≡ v / 4096 * 4096
page_start v lt = omega (arith, and-field 12 52 v)

-- What a walk that succeeds has found: a page of the user's, writable as it says.
walk_levels-look :
    (ram : ℕ → ℕ → ℕ) (t i : ℕ) (is : List ℕ) (w b : Bool)
    → walk_levels ram t (i ∷ is) w ≡ some b
    → (e : ℕ) × (look ram t (i ∷ is) ≡ leaf 0 e)
      × (user e ≡ true)
      × (b ≡ true → (w ≡ true) × (writable e ≡ true))
unfolding walk_levels
walk_levels-look ram t i [] w b h =
    let e : ℕ = ram t i in
    elim (Bool-cases (present e)) [
      | inr z ↦ cc (rw z at h)
      | inl p ↦ elim (Bool-cases (user e)) [
        | inr nu ↦ cc (rw (p, nu) at h)
        | inl u ↦ elim (Bool-cases (writable e)) [
          | inl wr ↦
              let got : some w ≡ some b = rw (p, u, wr) at h in
              (e, rw p refl, u, λ t. (cc (got, t), wr))
          | inr ro ↦
              let got : some false ≡ some b = rw (p, u, ro) at h in
              (e, rw p refl, u, λ t. cc (got, t))
        ]
      ]
    ]
walk_levels-look ram t i (j ∷ is) w b h =
    let e : ℕ = ram t i in
    elim (Bool-cases (present e)) [
      | inr z ↦ cc (rw z at h)
      | inl p ↦ elim (Bool-cases (user e)) [
        | inr nu ↦ cc (rw (p, nu) at h)
        | inl u ↦ elim (Bool-cases (huge e)) [
          | inl big ↦ cc (rw (p, u, big) at h)
          | inr small ↦
              let (e', at, u', wr) =
                walk_levels-look ram (frame_of e) j is (if not (writable e) then false else w) b
                  (rw (p, u, small) at h) in
              (e', rw (p, small) at, u', λ t. let (ww, we) = wr t in (ground (arith, ww), we))
        ]
      ]
    ]

pub walk_user-view :
    (k : Vmm) (ctx v : ℕ) (b : Bool)
    → walk_user k ctx v ≡ some b
    → (e : ℕ) × (view k ctx v ≡ leaf 0 e) × (user e ≡ true) × (b ≡ true → writable e ≡ true)
unfolding walk_user
walk_user-view k ctx v b h =
    let (e, at, u, wr) =
      walk_levels-look k.ram (k.contexts ctx) (index 39 v)
        (index 30 v ∷ index 21 v ∷ index 12 v ∷ []) true b h in
    (e, at, u, λ t. (wr t).1)

-- What an address must lead to: a page of the user's, writable where that is asked.
abbrev pub Granted : Leaf → (need_write : Bool) → Type 0
Granted l need_write =
    (e : ℕ) × (l ≡ leaf 0 e) × (user e ≡ true) × (need_write ≡ true → writable e ≡ true)

same_page_same_entry :
    (k : Vmm) (ctx v w : ℕ) (nw : Bool)
    → v / 4096 ≡ w / 4096
    → Granted (view k ctx v) nw
    → Granted (view k ctx w) nw
same_page_same_entry k ctx v w nw e =
    subst (λ is. Granted (look k.ram (k.contexts ctx) is) nw) (indices-page v w e)

pages_ok-Granted :
    (n page : ℕ) (k : Vmm) (ctx : ℕ) (need_write : Bool)
    → pages_ok n page k ctx need_write ≡ true
    → (j : ℕ) → j < n
    → Granted (view k ctx (page + j * 4096)) need_write
unfolding pages_ok
pages_ok-Granted zero page k ctx nw h j lt = absurd (omega arith)
pages_ok-Granted (suc n) page k ctx nw h j lt = elim (Option-cases (walk_user k ctx page)) [
  | inl none' ↦ cc (rw (none', pages_ok) at h)
  | inr (b, some') ↦ elim (Bool-cases (nw && not b)) [
    | inl bad ↦ cc (rw (some', pages_ok, bad) at h)
    | inr good ↦
        let ih = pages_ok-Granted n (page + 4096) k ctx nw (rw (some', pages_ok, good) at h) in
        elim (lt_or_le 0 j) [
          | inl later ↦
              same_page_same_entry k ctx (page + 4096 + (j - 1) * 4096) (page + j * 4096) nw
                (omega (arith, later)) (ih (j - 1) (omega (arith, lt, later)))
          | inr now ↦
              let (e, at, u, wr) = walk_user-view k ctx page b some' in
              same_page_same_entry k ctx page (page + j * 4096) nw (omega (arith, now))
                (e, at, u, λ t. wr (ground (arith, good, t)))
        ]
  ]
]

-- When vmm_user_range_ok accepts a range, the context is not NULL, and every address of the range
-- is below the end of the user half and translated by an entry for a page of 4 KiB with the user
-- bit, and with the write bit where writing was asked for.
pub vmm_user_range_ok-Granted :
    (k : Vmm) (ctx v len a : ℕ) (need_write : Bool)
    → vmm_user_range_ok k ctx v len need_write ≡ true
    → v ≤ a
    → a < v + len
    → (ctx ≢ 0) × (a < user_space_end) × Granted (view k ctx a) need_write
unfolding vmm_user_range_ok
vmm_user_range_ok-Granted k ctx v len a nw h lo hi =
    let some_len : (len == 0) ≡ false = ground (arith, lo, hi) in
    elim (Bool-cases (ctx == 0)) [
      | inl null ↦ cc (rw (null, vmm_user_range_ok) at h)
      | inr set_ ↦ elim (Bool-cases (leb user_space_end v || ltb (user_space_end - v) len)) [
        | inl out ↦ cc (rw (set_, some_len, out, vmm_user_range_ok) at h)
        | inr inside ↦
            let fits : v + len ≤ user_space_end = ground (arith, inside) in
            let from : bit_and v (2 ^ 64 - 4096) ≡ v / 4096 * 4096 =
              page_start v (omega (arith, fits)) in
            let wide : u64 (v + len + 4095) ≡ v + len + 4095 = omega (arith, fits) in
            let to : bit_and (u64 (v + len + 4095)) (2 ^ 64 - 4096)
                ≡ (v + len + 4095) / 4096 * 4096 =
              ap (λ x. bit_and x (2 ^ 64 - 4096)) wide
              ∙ page_start (v + len + 4095) (omega (arith, fits)) in
            let pages =
              pages_ok-Granted
                ((bit_and (u64 (v + len + 4095)) (2 ^ 64 - 4096) - bit_and v (2 ^ 64 - 4096))
                  / 4096)
                (bit_and v (2 ^ 64 - 4096)) k ctx nw
                (rw (set_, some_len, inside, vmm_user_range_ok) at h) in
            (
              ground (arith, set_),
              omega (arith, fits, hi),
              same_page_same_entry k ctx (bit_and v (2 ^ 64 - 4096) + (a / 4096 - v / 4096) * 4096)
                  a nw (omega (arith, from, lo))
                  (pages (a / 4096 - v / 4096) (omega (arith, from, to, lo, hi))),
            )
      ]
    ]
