-- ===== src/Vmm/Filling.antt =====
-- The loop of init_vmm in kernel/mmu/vmm.c that gives each empty slot of the kernel half a table.
use mathlib.Core.Path.{subst}
use toast_os.Prelude.{
  ℕ, zero, suc, ◌+◌, ◌≤◌, ◌<◌, ◌≡◌, ◌≢◌, refl, ◌∙◌, ap, sym, true, false, some, List, [], ◌==◌,
  arith, inl, inr, Bool-cases, lt_or_le, length, bit_or, max,
}
use toast_os.Prelude.Bits.{bit, eq_of_bit, bit-bit_or, bit-zero}
use toast_os.Pmm.{pmm_alloc}
use toast_os.Pmm.Taken.{pmm_alloc-Allocated}
use toast_os.Vmm.{Vmm, present, store, zero_page, table_entry, fill_slots}
use toast_os.Vmm.Entries.{present-table_entry}
use toast_os.Vmm.Tables.{look, look-Change, IsTree}
use toast_os.Vmm.Paths.{at_or_off, store-at}
use toast_os.Vmm.Grow

or-zero : (a : ℕ) → bit_or a 0 ≡ a
or-zero a =
    eq_of_bit (bit_or a 0) a (λ i. bit-bit_or i a 0 ∙ ap (max (bit a i)) (bit-zero i) ∙ omega arith)

-- What `fill_slots` leaves: a tree that translates as before, in which `n` slots from `i` on lead to
-- tables.
pub record Filled (root n i : ℕ) (k k' : Vmm) : Type 0 where
  pub own : ℕ → List ℕ
  pub tree : IsTree own root k'
  pub same_contexts : k'.contexts ≡ k.contexts
  pub same_kernel : k'.kernel_ctx ≡ k.kernel_ctx
  pub translates : (is : List ℕ) → length is ≡ 4 → look k'.ram root is ≡ look k.ram root is
  pub filled : (j : ℕ) → i ≤ j → j < i + n → present (k'.ram root j) ≡ true
  pub kept : (j : ℕ) → present (k.ram root j) ≡ true → present (k'.ram root j) ≡ true

module _ {own : ℕ → List ℕ} {root : ℕ} {k : Vmm} (tree : IsTree own root k) (i : ℕ)
    (empty : present (k.ram root i) ≡ false) (got : (pmm_alloc k.pmm).0 ≢ 0) where
  -- The kernel with a table for slot `i`, as the loop body leaves it.
  abbrev one_more : Vmm
  one_more = record k {
    pmm = (pmm_alloc k.pmm).1;
    ram =
        store (zero_page k.ram (pmm_alloc k.pmm).0) root i
          (bit_or (bit_or (pmm_alloc k.pmm).0 1) 2);
  }

  abbrev grown : Vmm
  grown = record k {
    pmm = (pmm_alloc k.pmm).1;
    ram = Grow.new_ram tree [] root i 0 (omega arith) refl empty got;
  }

  one_more-grown : grown ≡ one_more
  one_more-grown =
      ap
        (λ (e : ℕ). record k {
          pmm = (pmm_alloc k.pmm).1;
          ram = store (zero_page k.ram (pmm_alloc k.pmm).0) root i e;
        })
        (or-zero (bit_or (bit_or (pmm_alloc k.pmm).0 1) 2))

  grown_slot : present (grown.ram root i) ≡ true
  grown_slot =
      let n = (pmm_alloc k.pmm).0 in
      let alloc = pmm_alloc-Allocated tree.frames in
      let (whole, free, taken, lt) = alloc.fresh got in
      ap present (store-at (zero_page k.ram n) root i (table_entry n 0))
      ∙ present-table_entry n 0 whole (omega (arith, lt, tree.small))

  one_more-Filled : Filled root 1 i k grown
  one_more-Filled = record {
    own = Grow.own' tree [] root i 0 (omega arith) refl empty got;
    tree = Grow.new-IsTree tree [] root i 0 (omega arith) refl empty got;
    same_contexts = refl;
    same_kernel = refl;
    translates = λ is four.
        look-Change k.ram grown.ram root
          (Grow.new-Change tree [] root i 0 (omega arith) refl empty got) is [] root
          (omega (arith, four)) refl;
    filled = λ j lo hi.
        let same : i ≡ j = omega (arith, lo, hi) in
        ap (λ j. present (grown.ram root j)) (sym same) ∙ grown_slot;
    kept = λ j h. elim (at_or_off root root j i) [
      | inl (same, at) ↦ cc (sym h ∙ ap (λ j. present (k.ram root j)) at ∙ empty)
      | inr off ↦
          ap present (
            Grow.kept_entry tree [] root i 0 (omega arith) refl empty got [] root j (omega arith)
              refl off)
          ∙ h
    ];
  }

Filled-suc :
    {root n i : ℕ} {k k1 k' : Vmm}
    → Filled root 1 i k k1
    → Filled root n (i + 1) k1 k'
    → Filled root (suc n) i k k'
Filled-suc {root} {n} {i} {k} {k1} {k'} first rest = record {
  own = rest.own;
  tree = rest.tree;
  same_contexts = rest.same_contexts ∙ first.same_contexts;
  same_kernel = rest.same_kernel ∙ first.same_kernel;
  translates = λ is four. rest.translates is four ∙ first.translates is four;
  filled = λ j lo hi. elim (lt_or_le i j) [
    | inl above ↦ rest.filled j (omega (arith, above)) (omega (arith, hi))
    | inr at ↦ rest.kept j (first.filled j lo (omega (arith, at)))
  ];
  kept = λ j h. rest.kept j (first.kept j h);
}

Filled-present :
    {own : ℕ → List ℕ} {root : ℕ} {k : Vmm} (i : ℕ)
    → IsTree own root k
    → present (k.ram root i) ≡ true
    → Filled root 1 i k k
Filled-present {own} {root} {k} i tree here = record {
  own = own;
  tree = tree;
  same_contexts = refl;
  same_kernel = refl;
  translates = λ is four. refl;
  filled = λ j lo hi.
      let same : i ≡ j = omega (arith, lo, hi) in
      ap (λ j. present (k.ram root j)) (sym same) ∙ here;
  kept = λ j h. h;
}

-- One slot after the other.
pub Filled-fill_slots :
    (n i root : ℕ) (own : ℕ → List ℕ) (k k' : Vmm)
    → IsTree own root k
    → fill_slots n i root k ≡ some k'
    → Filled root n i k k'
unfolding fill_slots
Filled-fill_slots zero i root own k k' tree e =
    let same : k ≡ k' = cc e in
    rw (← same) (record {
      own = own;
      tree = tree;
      same_contexts = refl;
      same_kernel = refl;
      translates = λ is four. refl;
      filled = λ j lo hi. absurd (omega (arith, lo, hi));
      kept = λ j h. h;
    })
Filled-fill_slots (suc n) i root own k k' tree e = elim (Bool-cases (present (k.ram root i))) [
  | inl here ↦
      Filled-suc (Filled-present i tree here)
        (Filled-fill_slots n (i + 1) root own k k' tree (rw here at e))
  | inr empty ↦ elim (Bool-cases ((pmm_alloc k.pmm).0 == 0)) [
    | inl full ↦ cc (rw (empty, full) at e)
    | inr some' ↦
        let got : (pmm_alloc k.pmm).0 ≢ 0 = ground (arith, some') in
        let first = one_more-Filled tree i empty got in
        let after : fill_slots n (i + 1) root (one_more tree i empty got) ≡ some k' =
          rw (empty, some') at e in
        let first' : Filled root 1 i k (one_more tree i empty got) =
          subst (λ z. Filled root 1 i k z) (one_more-grown tree i empty got) first in
        Filled-suc first' (
          Filled-fill_slots n (i + 1) root first'.own (one_more tree i empty got) k' first'.tree
            after)
  ]
]
