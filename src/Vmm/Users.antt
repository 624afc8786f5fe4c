-- ===== src/Vmm/Users.antt =====
-- The user half of an address space, kernel/mmu/vmm.c: filling it, and checking what a task may
-- touch there.
use toast_os.Prelude.{
  ℕ, zero, suc, ◌+◌, ◌-◌, ◌*◌, ◌/◌, ◌^◌, Bool, true, false, Option, none, some, List, [], ◌∷◌, ◌==◌,
  if◌then◌else◌, ltb, leb, u64, min, not, ◌&&◌, ◌||◌, bit_and, bit_or, ◌>>=◌,
}
use toast_os.Pmm.{pmm_alloc, pmm_free}
use toast_os.Vmm.{
  Vmm, present, writable, user, huge, frame_of, index, pte_user, user_space_end, zero_page,
  vmm_map_page,
}

-- Word `w` of a zeroed page into whose first `n` bytes those at `from` have been copied.
abbrev pub byte_at : (ℕ → ℕ) → (from n j : ℕ) → ℕ
byte_at init from n j = if ltb j n then init (from + j) else 0

abbrev pub word_at : (ℕ → ℕ) → (from n w : ℕ) → ℕ
word_at init from n w =
    byte_at init from n (8 * w)
    + byte_at init from n (8 * w + 1) * 2 ^ 8
    + byte_at init from n (8 * w + 2) * 2 ^ 16
    + byte_at init from n (8 * w + 3) * 2 ^ 24
    + byte_at init from n (8 * w + 4) * 2 ^ 32
    + byte_at init from n (8 * w + 5) * 2 ^ 40
    + byte_at init from n (8 * w + 6) * 2 ^ 48
    + byte_at init from n (8 * w + 7) * 2 ^ 56

-- The page at `phys`, zeroed, with its part of `init`, if there is any.
abbrev pub fill_page : (ℕ → ℕ → ℕ) → Option (ℕ → ℕ) → (phys off init_len : ℕ) → ℕ → ℕ → ℕ
fill_page ram none phys off init_len = zero_page ram phys
fill_page ram (some init) phys off init_len = λ p w.
    if p == phys
    then (if ltb off init_len then word_at init off (min 4096 (init_len - off)) w else 0)
    else ram p w

-- The pages `i` to `i + n - 1` of the range.
unfoldable pub alloc_pages :
    (n i : ℕ) → (ctx v_addr flags : ℕ) → Option (ℕ → ℕ) → (init_len : ℕ) → Vmm → Option (Bool × Vmm)
alloc_pages zero i ctx v_addr flags init init_len k = some (true, k)
alloc_pages (suc n) i ctx v_addr flags init init_len k =
    let (phys, pmm) = pmm_alloc k.pmm in
    let off = i * 4096 in
    let k1 = record k { pmm = pmm; ram = fill_page k.ram init phys off init_len } in
    elim (phys == 0) [
      | true ↦ some (false, record k { pmm = pmm })
      | false ↦ do
        (ok, k2) ← vmm_map_page k1 ctx (v_addr + off) phys (bit_or flags pte_user)
        elim ok [
          | true ↦ alloc_pages n (i + 1) ctx v_addr flags init init_len k2
          | false ↦ some (false, record k2 { pmm = pmm_free k2.pmm phys })
        ]
    ]

-- `true` stands for the result 0, `false` for -1.
unfoldable pub vmm_user_alloc :
    Vmm → (ctx v_addr len flags : ℕ) → Option (ℕ → ℕ) → (init_len : ℕ) → Option (Bool × Vmm)
unfolding alloc_pages
vmm_user_alloc k ctx v_addr len flags init init_len =
    let pages = u64 (len + 4095) / 4096 in
    if not (bit_and v_addr 4095 == 0)
    then some (false, k)
    else if len == 0
    then some (true, k)
    else if leb user_space_end v_addr || ltb (user_space_end - v_addr) len
    then some (false, k)
    else if ltb len init_len
    then some (false, k)
    else alloc_pages pages 0 ctx v_addr flags init init_len k

-- The levels of `walk_user`, from a table on; the answer is `writable`, none where the page is not
-- the user's.
unfoldable pub walk_levels : (ℕ → ℕ → ℕ) → (table : ℕ) → List ℕ → Bool → Option Bool
walk_levels ram table [] w = some w
walk_levels ram table (idx ∷ []) w =
    let e = ram table idx in
    if not (present e) || not (user e) then none else some (if not (writable e) then false else w)
walk_levels ram table (idx ∷ next ∷ rest) w =
    let e = ram table idx in
    let below =
      walk_levels ram (frame_of e) (next ∷ rest) (if not (writable e) then false else w) in
    if not (present e) || not (user e) then none else if huge e then none else below

-- The indices of a page, the PML4's first.
abbrev pub indices : ℕ → List ℕ
indices v = index 39 v ∷ index 30 v ∷ index 21 v ∷ index 12 v ∷ []

unfoldable pub walk_user : Vmm → (ctx v_addr : ℕ) → Option Bool
unfolding walk_levels
walk_user k ctx v_addr = walk_levels k.ram (k.contexts ctx) (indices v_addr) true

-- The loop over the pages, of which there are `n`.
unfoldable pub pages_ok : (n page : ℕ) → Vmm → (ctx : ℕ) → (need_write : Bool) → Bool
unfolding walk_user
pages_ok zero page k ctx need_write = true
pages_ok (suc n) page k ctx need_write =
    let rest = pages_ok n (page + 4096) k ctx need_write in
    elim (walk_user k ctx page) [
      | none ↦ false
      | some w ↦ if need_write && not w then false else rest
    ]

unfoldable pub vmm_user_range_ok : Vmm → (ctx v_addr len : ℕ) → (need_write : Bool) → Bool
unfolding pages_ok
vmm_user_range_ok k ctx v_addr len need_write =
    let start = bit_and v_addr (2 ^ 64 - 4096) in
    let end = bit_and (u64 (v_addr + len + 4095)) (2 ^ 64 - 4096) in
    if ctx == 0
    then false
    else if len == 0
    then true
    else if leb user_space_end v_addr || ltb (user_space_end - v_addr) len
    then false
    else pages_ok ((end - start) / 4096) start k ctx need_write
