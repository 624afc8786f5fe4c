-- ===== src/Vmm/Unmap.antt =====
-- What `vmm_unmap_page` does to the map that the page tables stand for.
use mathlib.Core.Path.{subst}
use toast_os.Prelude.{
  ℕ, suc, ◌≡◌, refl, ◌∙◌, ap, sym, false, Option, none, some, List, [], ◌∷◌, ◌==◌, inl, inr,
  Bool-cases, if◌then◌else◌, length,
}
use toast_os.Vmm.{Vmm, present, huge, frame_of, index, store, vmm_get_phys, vmm_unmap_page}
use toast_os.Vmm.Users.{indices}
use toast_os.Vmm.Tables.{table_at, Leaf.leaf, Leaf.absent, look, IsTree, same_path, same_path-eq}
use toast_os.Vmm.Leaves.{look-written, written-IsTree}
use toast_os.Vmm.Translate.{NoHuge, page_number, phys_of, view, same_page, vmm_get_phys-view}

-- What unmapping the page at the indices `at` promises: a panic only where a huge page is in the
-- way, and otherwise that page unmapped and no other.
pub data Unmapped (own : ℕ → List ℕ) (root : ℕ) (k : Vmm) (at : List ℕ) : Option Vmm → Type 0 where
  blocked : (left e : ℕ) → look k.ram root at ≡ leaf (suc left) e → Unmapped own root k at none
  unmapped :
      (k' : Vmm)
      → IsTree own root k'
      → k'.contexts ≡ k.contexts
      → ((is : List ℕ)
          → length is ≡ 4
          → look k'.ram root is ≡ (if same_path is at then absent else look k.ram root is))
      → Unmapped own root k at (some k')

-- Nothing is done where nothing is mapped.
nothing_there :
    {own : ℕ → List ℕ} {root : ℕ} {k : Vmm} (at : List ℕ)
    → IsTree own root k
    → look k.ram root at ≡ absent
    → Unmapped own root k at (some k)
nothing_there {root = root} {k} at tree gone = unmapped k tree refl (λ is n.
    elim (Bool-cases (same_path is at)) [
      | inl here ↦ rw here (ap (look k.ram root) (same_path-eq is at here) ∙ gone)
      | inr off ↦ rw off refl
    ])

-- Where the page tables of a context form a tree, vmm_unmap_page refines the removal of a page
-- from a map: the page is gone, every other has what it had, and the tables form a tree again; it
-- panics only where a huge page is in the way.
pub vmm_unmap_page-Unmapped :
    {own : ℕ → List ℕ} (k : Vmm) (ctx v : ℕ)
    → IsTree own (k.contexts ctx) k
    → Unmapped own (k.contexts ctx) k (indices v) (vmm_unmap_page k ctx v)
unfolding vmm_unmap_page
vmm_unmap_page-Unmapped {own} k ctx v tree =
    let root : ℕ = k.contexts ctx in
    let e4 : ℕ = k.ram (k.contexts ctx) (index 39 v) in
    let e3 : ℕ = k.ram (frame_of e4) (index 30 v) in
    let e2 : ℕ = k.ram (frame_of e3) (index 21 v) in
    let pt : ℕ = frame_of e2 in
    let e1 : ℕ = k.ram pt (index 12 v) in
    let π : List ℕ = index 21 v ∷ index 30 v ∷ index 39 v ∷ [] in
    elim (Bool-cases (present e4)) [
      | inr z4 ↦ rw z4 (nothing_there (indices v) tree (rw z4 refl))
      | inl p4 ↦
          let s4 : huge e4 ≡ false = tree.no_huge_root (index 39 v) p4 in
          elim (Bool-cases (present e3)) [
            | inr z3 ↦ rw (p4, z3) (nothing_there (indices v) tree (rw (p4, s4, z3) refl))
            | inl p3 ↦ elim (Bool-cases (huge e3)) [
              | inl h3 ↦ rw (p4, p3, h3) (blocked 1 e3 (rw (p4, s4, p3, h3) refl))
              | inr s3 ↦ elim (Bool-cases (present e2)) [
                | inr z2 ↦
                    rw (p4, p3, s3, z2)
                      (nothing_there (indices v) tree (rw (p4, s4, p3, s3, z2) refl))
                | inl p2 ↦ elim (Bool-cases (huge e2)) [
                  | inl h2 ↦
                      rw (p4, p3, s3, p2, h2) (blocked 0 e2 (rw (p4, s4, p3, s3, p2, h2) refl))
                  | inr s2 ↦
                      let at : table_at k.ram root π ≡ some pt = rw (p4, s4, p3, s3, p2, s2) refl in
                      elim (Bool-cases (present e1)) [
                        | inr z1 ↦
                            rw (p4, p3, s3, p2, s2, z1)
                              (nothing_there (indices v) tree
                                (rw (p4, s4, p3, s3, p2, s2, z1) refl))
                        | inl p1 ↦
                            rw (p4, p3, s3, p2, s2, p1)
                              (unmapped (record k { ram = store k.ram pt (index 12 v) 0 })
                                (written-IsTree tree π pt (index 12 v) 0 refl at) refl
                                (look-written tree π pt (index 12 v) 0 refl at))
                      ]
                ]
              ]
            ]
          ]
    ]

-- Where the page tables of a context form a tree, after a vmm_unmap_page that does not panic
-- vmm_get_phys gives 0 for every address of that page, and every other address the translation it
-- had.
pub vmm_get_phys-vmm_unmap_page :
    {own : ℕ → List ℕ} (k k' : Vmm) (ctx v : ℕ)
    → IsTree own (k.contexts ctx) k
    → vmm_unmap_page k ctx v ≡ some k'
    → (w : ℕ)
    → vmm_get_phys k' ctx w ≡ (if page_number w == page_number v then 0 else vmm_get_phys k ctx w)
vmm_get_phys-vmm_unmap_page {own} k k' ctx v tree done w =
    go (vmm_unmap_page-Unmapped k ctx v tree) done
  where
    go :
        {out : Option Vmm}
        → Unmapped own (k.contexts ctx) k (indices v) out
        → out ≡ some k'
        → vmm_get_phys k' ctx w
          ≡ (if page_number w == page_number v then 0 else vmm_get_phys k ctx w)
    go (blocked left e b) eq = cc eq
    go (unmapped k'' tree'' c'' look'') eq =
        let it : k'' ≡ k' = cc eq in
        let tree' : IsTree own (k.contexts ctx) k' =
          subst (λ x. IsTree own (k.contexts ctx) x) it tree'' in
        let c : k'.contexts ≡ k.contexts = subst (λ x. x.contexts ≡ k.contexts) it c'' in
        let here : view k' ctx w
            ≡ (if page_number w == page_number v then absent else view k ctx w) =
          ap (λ f. look k'.ram (f ctx) (indices w)) c
          ∙ subst
              (λ x.
                look x.ram (k.contexts ctx) (indices w)
                ≡ (if same_path (indices w) (indices v) then absent else view k ctx w))
              it (look'' (indices w) refl)
          ∙ ap (λ b. if b then absent else view k ctx w) (same_page w v) in
        vmm_get_phys-view k' ctx w (subst (λ f. NoHuge (k'.ram (f ctx))) (sym c) tree'.no_huge_root)
        ∙ ap (λ l. phys_of l w) here
        ∙ elim (Bool-cases (page_number w == page_number v)) [
          | inl at ↦ rw at refl
          | inr off ↦ rw off (sym (vmm_get_phys-view k ctx w tree.no_huge_root))
        ]
