-- ===== src/Vmm/Mapping.antt =====
-- The page tables against what they stand for: a map from page numbers to entries.
use toast_os.Prelude.{
  ℕ, suc, ◌+◌, ◌≤◌, ◌<◌, ◌≡◌, refl, ◌∙◌, ap, sym, Bool, true, false, Option, none, some, List, [],
  ◌∷◌, ◌==◌, arith, inl, inr, Bool-cases, if◌then◌else◌, ◌&&◌, length, leb, ◌⊎◌,
}
use toast_os.Vmm.{Vmm, user, index, user_space_end, page_entry, with_table, vmm_map_page}
use toast_os.Pmm.Frames.{Free}
use toast_os.Vmm.Entries.{FlagsFit, present-page_entry}
use toast_os.Vmm.Users.{indices}
use toast_os.Vmm.Tables.{table_at, Leaf.leaf, Leaf.absent, look, IsTree, same_path}
use toast_os.Vmm.Grow.{Grown, Grown.panics, Grown.fails, Grown.finds, get_or_alloc_table-Grown}
use toast_os.Vmm.Leaves.{onto, look-onto, look-written, written-IsTree}

-- Why a mapping that may need `n` new tables fails: the guard, or the lack of memory, which includes
-- an allocator that hands out the frame at address 0.
abbrev pub Short : Vmm → (guard : Bool) → (n : ℕ) → Type 0
Short k guard n = (guard ≡ true) ⊎ ((k.pmm.free_frames < n) ⊎ Free k.pmm 0)

-- What mapping `e` at the indices `at` promises, by its result: a panic, which takes a huge page in
-- the way; a failure that leaves every translation as it was; or a mapping of that page and no other.
pub data Mapped (root : ℕ) (k : Vmm) (at : List ℕ) (e : ℕ) (guard : Bool) (n : ℕ)
    : Option (Bool × Vmm) → Type 0 where
  blocked :
      (left e' : ℕ) → look k.ram root at ≡ leaf (suc left) e' → Mapped root k at e guard n none
  refused :
      (own : ℕ → List ℕ) (k' : Vmm)
      → IsTree own root k'
      → k'.contexts ≡ k.contexts
      → ((is : List ℕ) → length is ≡ 4 → look k'.ram root is ≡ look k.ram root is)
      → Short k guard n
      → Mapped root k at e guard n (some (false, k'))
  mapped :
      (own : ℕ → List ℕ) (k' : Vmm)
      → IsTree own root k'
      → k'.contexts ≡ k.contexts
      → ((is : List ℕ)
          → length is ≡ 4
          → look k'.ram root is ≡ (if same_path is at then leaf 0 e else look k.ram root is))
      → Mapped root k at e guard n (some (true, k'))

shorter :
    (k k' : Vmm) {guard : Bool} {n : ℕ}
    → k.pmm.free_frames ≤ k'.pmm.free_frames + 1
    → (Free k'.pmm 0 → Free k.pmm 0)
    → Short k' guard n
    → Short k guard (suc n)
shorter k k' count free (inl g) = inl g
shorter k k' count free (inr (inl lt)) = inr (inl (omega (arith, count, lt)))
shorter k k' count free (inr (inr z)) = inr (inr (free z))

-- Mapping after a change that no translation shows, and that takes a frame at most.
module _ {root : ℕ} {k k' : Vmm} {at : List ℕ} {e : ℕ} {guard : Bool} {n : ℕ} (four : length at ≡ 4)
    (c : k'.contexts ≡ k.contexts)
    (same : (is : List ℕ) → length is ≡ 4 → look k'.ram root is ≡ look k.ram root is)
    (count : k.pmm.free_frames ≤ k'.pmm.free_frames + 1) (free : Free k'.pmm 0 → Free k.pmm 0) where
  after :
      {out : Option (Bool × Vmm)}
      → Mapped root k' at e guard n out
      → Mapped root k at e guard (suc n) out
  after (blocked left e' p) = blocked left e' (sym (same _ four) ∙ p)
  after (refused own k'' tree c' same' why) =
      refused own k'' tree (c' ∙ c) (λ is n. same' is n ∙ same is n) (shorter k k' count free why)
  after (mapped own k'' tree c' same') =
      mapped own k'' tree (c' ∙ c)
        (λ is n. same' is n ∙ ap (λ l. if same_path is at then leaf 0 e else l) (same is n))

-- One level: what holds of every continuation from a table below holds of the whole.
module _ {root : ℕ} {k : Vmm} (π : List ℕ) (t i j : ℕ) (is : List ℕ) (e : ℕ) (g : Bool) (n : ℕ)
    (f : ℕ → Vmm → Option (Bool × Vmm)) (four : length (onto π (i ∷ j ∷ is)) ≡ 4)
    (at : table_at k.ram root π ≡ some t)
    (next : (own : ℕ → List ℕ) (t' : ℕ) (k' : Vmm)
      → IsTree own root k'
      → table_at k'.ram root (i ∷ π) ≡ some t'
      → Mapped root k' (onto π (i ∷ j ∷ is)) e g n (f t' k')) where
  level :
      {out : Option (Option ℕ × Vmm)}
      → Grown root k π t i out
      → Mapped root k (onto π (i ∷ j ∷ is)) e g (suc n) (with_table out f)
  level (panics here big) =
      blocked (length is) (k.ram t i) (look-onto k.ram root π t i (j ∷ is) at ∙ rw (here, big) refl)
  level (fails own k' tree c same why) =
      refused own k' tree c (λ is n. ap (λ r. look r root is) same) (inr (out_of why))
    where
      out_of : (k.pmm.free_frames ≡ 0) ⊎ Free k.pmm 0 → (k.pmm.free_frames < suc n) ⊎ Free k.pmm 0
      out_of (inl z) = inl (omega (arith, z))
      out_of (inr z) = inr z
  level (finds own t' k' tree c at' same count free) =
      after four c same count free (next own t' k' tree at')

map_leaf :
    {own : ℕ → List ℕ} {root : ℕ} {k : Vmm} (tree : IsTree own root k) (π : List ℕ)
    (t i p_addr flags : ℕ) (g : Bool)
    → length π ≡ 3
    → FlagsFit flags
    → table_at k.ram root π ≡ some t
    → Mapped root k (onto π (i ∷ [])) (page_entry p_addr flags) g 0 (
        some (
          true,
          record k {
            ram = λ q j. if (q == t) && (j == i) then page_entry p_addr flags else k.ram q j;
          },
        ))
map_leaf {own} {root} {k} tree π t i p_addr flags g three fit at =
    let e : ℕ = page_entry p_addr flags in
    mapped own _ (written-IsTree tree π t i e three at) refl (λ is n.
      look-written tree π t i e three at is n
      ∙ ap
          (λ b.
            if same_path is (onto π (i ∷ []))
            then (if b then leaf 0 e else absent)
            else look k.ram root is)
          (present-page_entry p_addr flags fit))

-- Where the page tables of a context form a tree of frames in use, and the flags leave the address
-- bits alone, vmm_map_page refines the update of a map from page numbers to entries. On success
-- the page has the new entry and every other page what it had; on failure every page has what it
-- had, and either the address was refused or fewer than three frames were free (or the frame at
-- address 0 was); a panic means that a huge page is in the way. The tables form a tree again.
pub vmm_map_page-Mapped :
    {own : ℕ → List ℕ} (k : Vmm) (ctx v_addr p_addr flags : ℕ)
    → IsTree own (k.contexts ctx) k
    → FlagsFit flags
    → Mapped
        (k.contexts ctx)
        k
        (indices v_addr)
        (page_entry p_addr flags)
        (user flags && leb user_space_end v_addr)
        3
        (vmm_map_page k ctx v_addr p_addr flags)
unfolding vmm_map_page
vmm_map_page-Mapped {own} k ctx v_addr p_addr flags tree fit =
    let root : ℕ = k.contexts ctx in
    let i4 : ℕ = index 39 v_addr in
    let i3 : ℕ = index 30 v_addr in
    let i2 : ℕ = index 21 v_addr in
    let i1 : ℕ = index 12 v_addr in
    let e : ℕ = page_entry p_addr flags in
    elim (Bool-cases (user flags && leb user_space_end v_addr)) [
      | inl stop ↦ rw stop (refused own k tree refl (λ is n. refl) (inl refl))
      | inr pass ↦ rw pass (
          level [] root i4 i3 (i2 ∷ i1 ∷ []) e false _ _ refl refl
            (λ own1 t1 k1 tree1 at1.
              level (i4 ∷ []) t1 i3 i2 (i1 ∷ []) e false _ _ refl at1
                (λ own2 t2 k2 tree2 at2.
                  level (i3 ∷ i4 ∷ []) t2 i2 i1 [] e false _ _ refl at2
                    (λ own3 t3 k3 tree3 at3.
                      map_leaf tree3 (i2 ∷ i3 ∷ i4 ∷ []) t3 i1 p_addr flags false refl fit at3)
                    (get_or_alloc_table-Grown tree2 (i3 ∷ i4 ∷ []) t2 i2 flags (omega arith) at2))
                (get_or_alloc_table-Grown tree1 (i4 ∷ []) t1 i3 flags (omega arith) at1))
            (get_or_alloc_table-Grown tree [] root i4 flags (omega arith) refl))
    ]
