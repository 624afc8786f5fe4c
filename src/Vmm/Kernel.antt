-- ===== src/Vmm/Kernel.antt =====
-- The kernel's own address space as init_vmm of kernel/mmu/vmm.c builds it from the boot loader's.
use mathlib.Core.Path.{subst}
use toast_os.Prelude.{
  ℕ, ◌≤◌, ◌<◌, ◌≡◌, ◌≢◌, refl, ◌∙◌, ap, sym, Bool, true, some, List, ◌==◌, ==_refl, arith, inl, inr,
  Option-cases, if◌then◌else◌, ltb,
}
use toast_os.Pmm.{pmm_alloc}
use toast_os.Vmm.{
  Vmm, present, frame_of, index, fill_slots, init_vmm, vmm_switch_context, vmm_get_phys,
}
use toast_os.Vmm.Users.{indices}
use toast_os.Vmm.Translate.{NoHuge, phys_of, vmm_get_phys-view}
use toast_os.Vmm.Tables.{look, IsTree}
use toast_os.Vmm.Copied.{copied, copied_own, copied-IsTree, copied_phys}
use toast_os.Vmm.Filling.{Filled-fill_slots}

-- The kernel's address space: a tree that is in force, with a table in each slot of the kernel half,
-- that translates that half as `from` did, and nothing in the user half.
pub record IsKernelSpace (before : ℕ → ℕ) (k : Vmm) : Type 0 where
  pub own : ℕ → List ℕ
  pub tree : IsTree own (k.contexts k.kernel_ctx) k
  pub in_force : k.cr3 ≡ k.contexts k.kernel_ctx
  pub shared : (j : ℕ) → 256 ≤ j → j < 512 → present (k.ram (k.contexts k.kernel_ctx) j) ≡ true
  pub translates :
      (w : ℕ) → vmm_get_phys k k.kernel_ctx w ≡ (if ltb (index 39 w) 256 then 0 else before w)

-- Where the boot loader's page tables form a tree of frames in use, and memory is left for the
-- kernel's PML4, an init_vmm that returns leaves the kernel a tree of its own, in force, in which
-- every slot of the kernel half leads to a table, the kernel half translates as the boot loader's
-- tables did, and the user half translates nothing.
pub init_vmm-IsKernelSpace :
    (own : ℕ → List ℕ) (k k' : Vmm) (nx : Bool)
    → IsTree own (frame_of k.cr3) k
    → (pmm_alloc k.pmm).0 ≢ 0
    → init_vmm k nx ≡ some k'
    → IsKernelSpace (λ w. phys_of (look k.ram (frame_of k.cr3) (indices w)) w) k'
unfolding init_vmm vmm_switch_context
init_vmm-IsKernelSpace own k k' nx tree memory e =
    let from = frame_of k.cr3 in
    let root = (pmm_alloc k.pmm).0 in
    let start : Vmm = record k { nx_enabled = if nx then true else k.nx_enabled } in
    let start_tree : IsTree own from start = record {
      frames = tree.frames;
      small = tree.small;
      owned = tree.owned;
      used = tree.used;
      no_huge_root = tree.no_huge_root;
    } in
    let copy = copied-IsTree start_tree memory in
    elim (Option-cases (fill_slots 256 256 root (copied start_tree memory))) [
      | inl full ↦ cc (rw full at e)
      | inr (k1, done) ↦
          let f =
            Filled-fill_slots 256 256 root (copied_own start_tree memory) (copied start_tree memory)
              k1 copy done in
          let final : Vmm = record k1 {
            contexts = λ c. if c == k1.kernel_ctx then root else k1.contexts c;
            cr3 = if k1.kernel_ctx == k1.kernel_ctx then root else k1.contexts k1.kernel_ctx;
          } in
          let same : final ≡ k' = cc (rw done at e) in
          let at : final.contexts k1.kernel_ctx ≡ root = rw (==_refl k1.kernel_ctx) refl in
          let final_tree : IsTree f.own root final = record {
            frames = f.tree.frames;
            small = f.tree.small;
            owned = f.tree.owned;
            used = f.tree.used;
            no_huge_root = f.tree.no_huge_root;
          } in
          subst (λ z. IsKernelSpace (λ w. phys_of (look k.ram from (indices w)) w) z) same
            (record {
              own = f.own;
              tree = subst (λ r. IsTree f.own r final) (sym at) final_tree;
              in_force = refl;
              shared =
                  λ j lo hi. ap (λ r. present (k1.ram r j)) at ∙ f.filled j lo (omega (arith, hi));
              translates = λ w.
                  vmm_get_phys-view final k1.kernel_ctx w
                    (subst (λ r. NoHuge (k1.ram r)) (sym at) f.tree.no_huge_root)
                  ∙ ap (λ r. phys_of (look k1.ram r (indices w)) w) at
                  ∙ ap (λ l. phys_of l w) (f.translates (indices w) refl)
                  ∙ copied_phys start_tree memory w;
            })
    ]
