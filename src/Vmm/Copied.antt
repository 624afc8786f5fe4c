-- ===== src/Vmm/Copied.antt =====
-- A new PML4 that takes over the kernel half of another, as init_vmm of kernel/mmu/vmm.c begins.
use toast_os.Prelude.{
  ℕ, ◌/◌, ◌%◌, ◌≤◌, ◌≡◌, ◌≢◌, refl, ◌∙◌, ap, sym, false, some, List, [], ◌∷◌, ◌==◌, ==_refl, arith,
  inl, inr, Bool-cases, Option-cases, if◌then◌else◌, ◌&&◌, length, ltb, leb,
}
use toast_os.Pmm.{pmm_alloc}
use toast_os.Pmm.Frames.{Used}
use toast_os.Pmm.Taken.{pmm_alloc-Allocated}
use toast_os.Vmm.{Vmm, index, zero_page, kernel_half}
use toast_os.Vmm.Users.{indices}
use toast_os.Vmm.Translate.{phys_of}
use toast_os.Vmm.Tables.{table_at, then_child, child_of, look, IsTree}
use toast_os.Vmm.Contexts

-- A new PML4 whose kernel half is copied from another's: its tables are that one's.
module _ {own : ℕ → List ℕ} {from : ℕ} {k : Vmm} (tree : IsTree own from k)
    (memory : (pmm_alloc k.pmm).0 ≢ 0) where
  abbrev pub at_from : Vmm
  at_from = record k { contexts = λ c. from }

  pub from-IsTree : IsTree own from at_from
  from-IsTree = record {
    frames = tree.frames;
    small = tree.small;
    owned = tree.owned;
    used = tree.used;
    no_huge_root = tree.no_huge_root;
  }

  abbrev pub pml4 : ℕ
  pml4 = (pmm_alloc k.pmm).0

  abbrev pub copied : Vmm
  copied = record k {
    pmm = (pmm_alloc k.pmm).1;
    ram = kernel_half (zero_page k.ram pml4) from pml4;
  }

  pub one : ◌≢◌ {A = ℕ} 1 0
  one = omega arith

  pub copied_row :
      (j : ℕ) → copied.ram pml4 j ≡ (if leb 256 j && ltb j 512 then k.ram from j else 0)
  copied_row = Contexts.new_row at_from 1 from-IsTree one memory

  -- Below the root the tables of the copy are those of the original.
  pub copied_old :
      (i : ℕ) (path : List ℕ) (s : ℕ)
      → length path ≤ 2
      → table_at copied.ram pml4 (i ∷ path) ≡ some s
      → table_at k.ram from (i ∷ path) ≡ some s
  copied_old i [] s short e = elim (Bool-cases (leb 256 i && ltb i 512)) [
    | inl shared ↦
        let row : copied.ram pml4 i ≡ k.ram from i = copied_row i ∙ rw shared refl in
        sym (ap child_of row) ∙ e
    | inr low ↦
        let row : copied.ram pml4 i ≡ 0 = copied_row i ∙ rw low refl in
        cc (sym (ap child_of row) ∙ e)
  ]
  copied_old i (j ∷ path) s short e = elim (Option-cases (table_at copied.ram pml4 (j ∷ path))) [
    | inl none' ↦ cc (rw (none', table_at) at e)
    | inr (t, up) ↦
        let old = copied_old j path t (omega (arith, short)) up in
        let ne =
          Contexts.other at_from 1 from-IsTree one memory (j ∷ path) t (omega (arith, short)) old in
        let row = Contexts.old_row at_from 1 from-IsTree one memory t i ne in
        let below : child_of (copied.ram t i) ≡ some s =
          ap (λ o. then_child copied.ram o i) (sym up) ∙ e in
        ap (λ o. then_child k.ram o i) old ∙ ap child_of (sym row) ∙ below
  ]

  abbrev pub copied_own : ℕ → List ℕ
  copied_own s = if s == pml4 then [] else own s

  pub copied-IsTree : IsTree copied_own pml4 copied
  copied-IsTree =
      let alloc = pmm_alloc-Allocated tree.frames in
      let (whole, free, taken, lt) = alloc.fresh memory in
      record {
        frames = alloc.frames;
        small = omega (arith, alloc.size, tree.small);
        owned = owned;
        used = used;
        no_huge_root = Contexts.plain at_from 1 from-IsTree one memory;
      }
    where
      owned :
          (path : List ℕ) (t : ℕ)
          → length path ≤ 3
          → table_at copied.ram pml4 path ≡ some t
          → copied_own t ≡ path
      owned [] t le e = let same : pml4 ≡ t = cc e in rw (← same, ==_refl pml4) refl
      owned (i ∷ path) t le e =
          let old = copied_old i path t (omega (arith, le)) e in
          let ne = Contexts.other at_from 1 from-IsTree one memory (i ∷ path) t le old in
          let off : (t == pml4) ≡ false = ground (arith, ne) in
          rw off (tree.owned (i ∷ path) t le old)

      used :
          (path : List ℕ) (t : ℕ)
          → length path ≤ 3
          → table_at copied.ram pml4 path ≡ some t
          → Used copied.pmm (t / 4096) × (t % 4096 ≡ 0)
      used [] t le e =
          let (whole, free, taken, lt) = (pmm_alloc-Allocated tree.frames).fresh memory in
          let same : pml4 ≡ t = cc e in rw (← same) (taken, whole)
      used (i ∷ path) t le e =
          let old = copied_old i path t (omega (arith, le)) e in
          let (u, w) = tree.used (i ∷ path) t le old in
          ((pmm_alloc-Allocated tree.frames).used (t / 4096) u, w)

  pub copied_phys :
      (w : ℕ)
      → phys_of (look copied.ram pml4 (indices w)) w
        ≡ (if ltb (index 39 w) 256 then 0 else phys_of (look k.ram from (indices w)) w)
  copied_phys w =
      ap (λ l. phys_of l w) (Contexts.view-new at_from 1 from-IsTree one memory w)
      ∙ elim (Bool-cases (ltb (index 39 w) 256)) [ inl low ↦ rw low refl | inr high ↦ rw high refl ]
