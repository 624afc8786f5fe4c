-- ===== src/Vmm/Contexts.antt =====
-- A new address space: the user half empty, the kernel half shared.
use mathlib.Core.Path.{subst}
use toast_os.Prelude.{
  ℕ, ◌/◌, ◌≤◌, ◌<◌, ◌≡◌, ◌≢◌, refl, ◌∙◌, ap, sym, false, some, List, [], ◌∷◌, ◌==◌, ==_refl, arith,
  inl, inr, Bool-cases, if◌then◌else◌, ◌&&◌, length, ltb, leb,
}
use toast_os.Pmm.{pmm_alloc}
use toast_os.Pmm.Frames.{Used}
use toast_os.Pmm.Taken.{pmm_alloc-Allocated}
use toast_os.Vmm.{
  Vmm, present, huge, frame_of, index, zero_page, kernel_half, vmm_get_phys, vmm_create_context,
}
use toast_os.Vmm.Users.{indices}
use toast_os.Vmm.Tables.{table_at, Leaf.absent, look, follow, look-Change, IsTree, Change.kept}
use toast_os.Vmm.Translate.{NoHuge, phys_of, view, index-field, vmm_get_phys-view}

module _ {own : ℕ → List ℕ} (k : Vmm) (context : ℕ) (tree : IsTree own (k.contexts k.kernel_ctx) k)
    (given : context ≢ 0) (memory : (pmm_alloc k.pmm).0 ≢ 0) where
  abbrev pub n : ℕ
  n = (pmm_alloc k.pmm).0

  abbrev pub root : ℕ
  root = k.contexts k.kernel_ctx

  abbrev pub ram' : ℕ → ℕ → ℕ
  ram' = kernel_half (zero_page k.ram n) root n

  abbrev k' : Vmm
  k' = record k {
    pmm = (pmm_alloc k.pmm).1;
    ram =
        kernel_half (zero_page k.ram (pmm_alloc k.pmm).0) (k.contexts k.kernel_ctx)
          (pmm_alloc k.pmm).0;
    contexts = λ c. if c == context then (pmm_alloc k.pmm).0 else k.contexts c;
  }

  created : vmm_create_context k context ≡ (context, k')
  unfolding vmm_create_context
  created =
      let a : (context == 0) ≡ false = ground (arith, given) in
      let b : ((pmm_alloc k.pmm).0 == 0) ≡ false = ground (arith, memory) in rw (a, b) refl

  pub other : (path : List ℕ) (s : ℕ) → length path ≤ 3 → table_at k.ram root path ≡ some s → s ≢ n
  other path s le e eq =
      let (u, w) = tree.used path s le e in
      let f = ((pmm_alloc-Allocated tree.frames).fresh memory).1 in
      let u' : Used k.pmm (n / 4096) = rw (sym eq) u in omega (arith, f, u')

  pub old_row : (s j : ℕ) → s ≢ n → ram' s j ≡ k.ram s j
  old_row s j ne = let off : (s == n) ≡ false = ground (arith, ne) in rw off refl

  pub new_row : (j : ℕ) → ram' n j ≡ (if leb 256 j && ltb j 512 then k.ram root j else 0)
  new_row j =
      let off : (root == n) ≡ false = ground (arith, other [] root (omega arith) refl) in
      rw (==_refl n, off) refl

  same_look : (is : List ℕ) → length is ≡ 4 → look ram' root is ≡ look k.ram root is
  same_look is four =
      look-Change k.ram ram' root (λ path s j le e. kept (old_row s j (other path s le e))) is []
        root (omega (arith, four)) refl

  pub plain : NoHuge (ram' n)
  plain j = elim (Bool-cases (leb 256 j && ltb j 512)) [
    | inl shared ↦
        let row : ram' n j ≡ k.ram root j = new_row j ∙ rw shared refl in
        λ e. ap huge row ∙ tree.no_huge_root j (sym (ap present row) ∙ e)
    | inr user' ↦ let row : ram' n j ≡ 0 = new_row j ∙ rw user' refl in λ e. ap huge row
  ]

  pub view-new :
      (w : ℕ)
      → look ram' n (indices w) ≡ (if ltb (index 39 w) 256 then absent else view k k.kernel_ctx w)
  view-new w =
      let is : List ℕ = index 30 w ∷ index 21 w ∷ index 12 w ∷ [] in
      let small : index 39 w < 512 = omega (arith, index-field 39 w) in
      elim (Bool-cases (ltb (index 39 w) 256)) [
        | inl low ↦
            let row : ram' n (index 39 w) ≡ 0 = new_row (index 39 w) ∙ ground (arith, low) in
            rw (low, row) refl
        | inr high ↦
            let row : ram' n (index 39 w) ≡ k.ram root (index 39 w) =
              new_row (index 39 w) ∙ ground (arith, high, small) in
            let row' : ram' n (index 39 w) ≡ ram' root (index 39 w) =
              row ∙ sym (old_row root (index 39 w) (other [] root (omega arith) refl)) in
            rw high (
              ap (λ e. follow e is (look ram' (frame_of e) is)) row'
              ∙ same_look (index 39 w ∷ is) refl)
      ]

  -- Where the kernel's page tables form a tree and memory is left for the context and its PML4,
  -- vmm_create_context returns an address space whose user half, the first 256 slots of the PML4,
  -- translates nothing, and whose kernel half translates as the kernel's own.
  pub vmm_get_phys-vmm_create_context :
      (w : ℕ)
      → let (ctx, k2) = vmm_create_context k context in
        (ctx ≡ context)
        × (vmm_get_phys k2 ctx w
            ≡ (if ltb (index 39 w) 256 then 0 else vmm_get_phys k k.kernel_ctx w))
  vmm_get_phys-vmm_create_context w =
      let at : k'.contexts context ≡ n = rw (==_refl context) refl in
      rw created (
        refl,
        vmm_get_phys-view k' context w (subst (λ r. NoHuge (ram' r)) (sym at) plain)
            ∙ ap (λ r. phys_of (look ram' r (indices w)) w) at
            ∙ ap (λ l. phys_of l w) (view-new w)
            ∙ elim (Bool-cases (ltb (index 39 w) 256)) [
              | inl low ↦ rw low refl
              | inr high ↦ rw high (sym (vmm_get_phys-view k k.kernel_ctx w tree.no_huge_root))
            ],
      )
