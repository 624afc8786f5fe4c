-- ===== src/Vmm/Grow.antt =====
-- What `get_or_alloc_table` does to the tree of page tables and to the translations.
use toast_os.Prelude.{
  ℕ, ◌+◌, ◌/◌, ◌%◌, ◌^◌, ◌<◌, ◌≤◌, ◌≡◌, ◌≢◌, refl, ◌∙◌, ap, sym, true, false, Option, none, some,
  List, [], ◌∷◌, ◌==◌, ==_refl, arith, inl, inr, Bool-cases, if◌then◌else◌, ◌&&◌, not, length, ◌⊎◌,
  bit_or,
}
use toast_os.Pmm.{pmm_alloc}
use toast_os.Pmm.Frames.{Used, Free}
use toast_os.Pmm.Taken.{Allocated, pmm_alloc-Allocated}
use toast_os.Vmm.{
  Vmm, present, user, huge, frame_of, store, zero_page, get_or_alloc_table, table_entry, pte_user,
}
use toast_os.Vmm.Entries.{
  present-table_entry, huge-table_entry, frame_of-table_entry, present-raised, huge-raised,
  frame_of-raised,
}
use toast_os.Vmm.Tables.{
  child_of, table_at, look, look-Change, IsTree, same_path, same_path-eq, same_path_refl, Change,
  Change.kept, Change.raised, Change.added,
}
use toast_os.Vmm.Paths.{
  at_or_off, store-at, table_at-store, extended-fresh, extended-old, table_at-extended,
}

-- What may come of asking for the table below entry `i` of the table at `π`: a panic, which takes a
-- huge page there; NULL; or a table, at the end of the path, in a tree that maps what it mapped.
pub data Grown (root : ℕ) (k : Vmm) (π : List ℕ) (t i : ℕ) : Option (Option ℕ × Vmm) → Type 0 where
  panics : present (k.ram t i) ≡ true → huge (k.ram t i) ≡ true → Grown root k π t i none
  fails :
      (own : ℕ → List ℕ) (k' : Vmm)
      → IsTree own root k'
      → k'.contexts ≡ k.contexts
      → k'.ram ≡ k.ram
      → (k.pmm.free_frames ≡ 0) ⊎ Free k.pmm 0
      → Grown root k π t i (some (none, k'))
  finds :
      (own : ℕ → List ℕ) (t' : ℕ) (k' : Vmm)
      → IsTree own root k'
      → k'.contexts ≡ k.contexts
      → table_at k'.ram root (i ∷ π) ≡ some t'
      → ((is : List ℕ) → length is ≡ 4 → look k'.ram root is ≡ look k.ram root is)
      → k.pmm.free_frames ≤ k'.pmm.free_frames + 1
      → (Free k'.pmm 0 → Free k.pmm 0)
      → Grown root k π t i (some (some t', k'))

module _ {own : ℕ → List ℕ} {root : ℕ} {k : Vmm} (tree : IsTree own root k) (π : List ℕ)
    (t i flags : ℕ) (short : length π ≤ 2) (at : table_at k.ram root π ≡ some t) where
  alloc : Allocated k.pmm (pmm_alloc k.pmm)
  alloc = pmm_alloc-Allocated tree.frames

  -- No memory.
  no_table : IsTree own root (record k { pmm = (pmm_alloc k.pmm).1 })
  no_table = record {
    frames = alloc.frames;
    small = omega (arith, alloc.size, tree.small);
    owned = tree.owned;
    used =
        λ path s le e. let (u, whole) = tree.used path s le e in (alloc.used (s / 4096) u, whole);
    no_huge_root = tree.no_huge_root;
  }

  -- The user bit raised.
  module _ (here : present (k.ram t i) ≡ true) (small : huge (k.ram t i) ≡ false) where
    abbrev raised_ram : ℕ → ℕ → ℕ
    raised_ram = store k.ram t i (bit_or (k.ram t i) pte_user)

    same_child : child_of (bit_or (k.ram t i) pte_user) ≡ child_of (k.ram t i)
    same_child =
        rw (present-raised (k.ram t i), huge-raised (k.ram t i), frame_of-raised (k.ram t i)) refl

    raised-IsTree : IsTree own root (record k { ram = raised_ram })
    raised-IsTree =
        let moves = table_at-store k.ram root t i (bit_or (k.ram t i) pte_user) same_child in
        record {
          frames = tree.frames;
          small = tree.small;
          owned = λ path s le e. tree.owned path s le (sym (moves path) ∙ e);
          used = λ path s le e. tree.used path s le (sym (moves path) ∙ e);
          no_huge_root = λ j. elim (at_or_off root t j i) [
            | inl (p, q) ↦ λ e.
                rw (p, q, store-at k.ram t i (bit_or (k.ram t i) pte_user))
                  (huge-raised (k.ram t i) ∙ small)
            | inr off ↦ rw off (tree.no_huge_root j)
          ];
        }

    to_raised :
        table_at (store k.ram t i (bit_or (k.ram t i) pte_user)) root (i ∷ π)
        ≡ some (frame_of (bit_or (k.ram t i) pte_user))
    to_raised =
        table_at-store k.ram root t i (bit_or (k.ram t i) pte_user) same_child (i ∷ π)
        ∙ rw (at, here, small, frame_of-raised (k.ram t i)) refl

    raised-Change :
        (path : List ℕ) (s j : ℕ)
        → length path ≤ 3
        → table_at k.ram root path ≡ some s
        → Change k.ram raised_ram path s j
    raised-Change path s j le e = elim (at_or_off s t j i) [
      | inl (p, q) ↦
          let same : path ≡ π =
            sym (tree.owned path s le e) ∙ ap own p ∙ tree.owned π t (omega (arith, short)) at in
          let new : raised_ram s j ≡ bit_or (k.ram t i) pte_user =
            rw (p, q) (store-at k.ram t i (bit_or (k.ram t i) pte_user)) in
          let old : k.ram s j ≡ k.ram t i = rw (p, q) refl in
          raised (omega (arith, short, ap length same)) (ap present old ∙ here)
            (ap huge old ∙ small) (ap present new ∙ present-raised (k.ram t i) ∙ here)
            (ap huge new ∙ huge-raised (k.ram t i) ∙ small)
            (ap frame_of new ∙ frame_of-raised (k.ram t i) ∙ ap frame_of (sym old))
      | inr off ↦ kept (rw off refl)
    ]

  -- A new table.
  module _ (empty : present (k.ram t i) ≡ false) (got : (pmm_alloc k.pmm).0 ≢ 0) where
    abbrev pub n : ℕ
    n = (pmm_alloc k.pmm).0

    abbrev pub e' : ℕ
    e' = table_entry n flags

    abbrev pub new_ram : ℕ → ℕ → ℕ
    new_ram = store (zero_page k.ram n) t i e'

    in_range : n < 2 ^ 52
    in_range = let (whole, free, used, lt) = alloc.fresh got in omega (arith, lt, tree.small)

    whole : n % 4096 ≡ 0
    whole = (alloc.fresh got).0

    leads : child_of (table_entry n flags) ≡ some n
    leads =
        rw
          (
            present-table_entry n flags whole in_range,
            huge-table_entry n flags whole in_range,
            frame_of-table_entry n flags whole in_range,
          )
          refl

    other : (path : List ℕ) (s : ℕ) → length path ≤ 3 → table_at k.ram root path ≡ some s → s ≢ n
    other path s le e eq =
        let (u, w) = tree.used path s le e in
        let f = (alloc.fresh got).1 in
        let u' : Used k.pmm (n / 4096) = rw (sym eq) u in omega (arith, f, u')

    new_at :
        (path : List ℕ)
        → length path ≤ 3
        → table_at new_ram root path
          ≡ (if same_path path (i ∷ π) then some n else table_at k.ram root path)
    new_at = table_at-extended k.ram root own tree.owned π t i e' n short at empty leads other

    abbrev pub own' : ℕ → List ℕ
    own' s = if s == n then i ∷ π else own s

    to_new : table_at new_ram root (i ∷ π) ≡ some n
    to_new = new_at (i ∷ π) (omega (arith, short)) ∙ rw (same_path_refl (i ∷ π)) refl

    -- A table of the new tree is the new one or an old one.
    old_or_new :
        (path : List ℕ) (s : ℕ)
        → length path ≤ 3
        → table_at new_ram root path ≡ some s
        → ((path ≡ i ∷ π) × (s ≡ n)) ⊎ (table_at k.ram root path ≡ some s)
    old_or_new path s le e =
        let eq : (if same_path path (i ∷ π) then some n else table_at k.ram root path) ≡ some s =
          sym (new_at path le) ∙ e in
        elim (Bool-cases (same_path path (i ∷ π))) [
          | inl here ↦
              let same : some n ≡ some s = rw here at eq in
              inl (same_path-eq path (i ∷ π) here, cc same)
          | inr off ↦ inr (rw off at eq)
        ]

    pub kept_entry :
        (path : List ℕ) (s j : ℕ)
        → length path ≤ 3
        → table_at k.ram root path ≡ some s
        → ((s == t) && (j == i)) ≡ false
        → new_ram s j ≡ k.ram s j
    kept_entry path s j le e off =
        extended-old k.ram root own tree.owned π t i e' n short at empty leads other s j
          (other path s le e) off

    pub new-IsTree : IsTree own' root (record k { pmm = (pmm_alloc k.pmm).1; ram = new_ram })
    new-IsTree = record {
      frames = alloc.frames;
      small = omega (arith, alloc.size, tree.small);
      owned = λ path s le e. elim (old_or_new path s le e) [
        | inl (p, q) ↦ rw (q, ==_refl n) (sym p)
        | inr old ↦
            let ne = other path s le old in
            let off : (s == n) ≡ false = ground (arith, ne) in rw off (tree.owned path s le old)
      ];
      used = λ path s le e. elim (old_or_new path s le e) [
        | inl (p, q) ↦ rw q ((alloc.fresh got).2, whole)
        | inr old ↦ let (u, w) = tree.used path s le old in (alloc.used (s / 4096) u, w)
      ];
      no_huge_root = λ j. elim (at_or_off root t j i) [
        | inl (p, q) ↦ λ e.
            rw (p, q, store-at (zero_page k.ram n) t i e') (huge-table_entry n flags whole in_range)
        | inr off ↦
            let same = kept_entry [] root j (omega arith) refl off in
            λ e. ap huge same ∙ tree.no_huge_root j (sym (ap present same) ∙ e)
      ];
    }

    pub new-Change :
        (path : List ℕ) (s j : ℕ)
        → length path ≤ 3
        → table_at k.ram root path ≡ some s
        → Change k.ram new_ram path s j
    new-Change path s j le e = elim (at_or_off s t j i) [
      | inl (p, q) ↦
          let same : path ≡ π =
            sym (tree.owned path s le e) ∙ ap own p ∙ tree.owned π t (omega (arith, short)) at in
          let new : new_ram s j ≡ e' = rw (p, q) (store-at (zero_page k.ram n) t i e') in
          let old : k.ram s j ≡ k.ram t i = rw (p, q) refl in
          let to : frame_of (new_ram s j) ≡ n =
            ap frame_of new ∙ frame_of-table_entry n flags whole in_range in
          added (omega (arith, short, ap length same)) (ap present old ∙ empty)
            (ap present new ∙ present-table_entry n flags whole in_range)
            (ap huge new ∙ huge-table_entry n flags whole in_range)
            (λ w.
              ap (λ f. new_ram f w) to
              ∙ extended-fresh k.ram root own tree.owned π t i e' n short at empty leads other w)
      | inr off ↦ kept (kept_entry path s j le e off)
    ]

  pub get_or_alloc_table-Grown : Grown root k π t i (get_or_alloc_table k t i flags)
  unfolding get_or_alloc_table
  get_or_alloc_table-Grown = elim (Bool-cases (present (k.ram t i))) [
    | inl here ↦ elim (Bool-cases (huge (k.ram t i))) [
      | inl big ↦ rw (here, big) (panics here big)
      | inr small ↦ elim (Bool-cases (user flags && not (user (k.ram t i)))) [
        | inl lift ↦
            rw (here, small, lift)
              (finds own (frame_of (bit_or (k.ram t i) pte_user)) _ (raised-IsTree here small) refl
                (to_raised here small)
                (λ is four.
                  look-Change k.ram (raised_ram here small) root (raised-Change here small) is []
                    root (omega (arith, four)) refl)
                (omega arith) (λ u. u))
        | inr leave ↦
            rw (here, small, leave)
              (finds own (frame_of (k.ram t i)) k tree refl (rw (at, here, small) refl)
                (λ is four. refl) (omega arith) (λ u. u))
      ]
    ]
    | inr empty ↦ elim (Bool-cases ((pmm_alloc k.pmm).0 == 0)) [
      | inl full ↦ rw (empty, full) (fails own _ no_table refl refl (alloc.fails (ground arith)))
      | inr got ↦
          let ne : (pmm_alloc k.pmm).0 ≢ 0 = ground arith in
          rw (empty, got)
            (finds (own' empty ne) (pmm_alloc k.pmm).0 _ (new-IsTree empty ne) refl
              (to_new empty ne)
              (λ is four.
                look-Change k.ram (new_ram empty ne) root (new-Change empty ne) is [] root
                  (omega (arith, four)) refl)
              alloc.count (alloc.free 0))
    ]
  ]
