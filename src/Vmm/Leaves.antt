-- ===== src/Vmm/Leaves.antt =====
-- What a write into a page table, the last of the four levels, does to the translations.
use toast_os.Prelude.{
  ℕ, ◌+◌, ◌≤◌, ◌≡◌, refl, ◌∙◌, ap, ap₂, sym, true, false, none, some, List, [], ◌∷◌, arith, inl,
  inr, Bool-cases, Option-cases, if◌then◌else◌, length,
}
use toast_os.Vmm.{Vmm, present, huge, frame_of, store}
use toast_os.Vmm.Tables.{
  child_of, child_of-some, table_at, Leaf.leaf, Leaf.absent, look, IsTree, same_path, same_path-eq,
  same_path_refl,
}
use toast_os.Vmm.Paths.{at_or_off, store-at}

-- The indices of a path from the PML4 down, before those of `is`.
abbrev pub onto : List ℕ → List ℕ → List ℕ
onto [] is = is
onto (j ∷ path) is = onto path (j ∷ is)

abbrev pub first : List ℕ → ℕ
first [] = 0
first (x ∷ xs) = x

abbrev pub rest : List ℕ → List ℕ
rest [] = []
rest (x ∷ xs) = xs

pub onto-injective :
    (ρ π is js : List ℕ) → length ρ ≡ length π → onto ρ is ≡ onto π js → (ρ ≡ π) × (is ≡ js)
onto-injective [] [] is js e h = (refl, h)
onto-injective [] (p ∷ π) is js e h = absurd (omega (arith, e))
onto-injective (r ∷ ρ) [] is js e h = absurd (omega (arith, e))
onto-injective (r ∷ ρ) (p ∷ π) is js e h =
    let (tails, heads) = onto-injective ρ π (r ∷ is) (p ∷ js) (omega (arith, e)) h in
    (ap₂ (λ x l. x ∷ l) (ap first heads) tails, ap rest heads)

-- A translation along the path of a table goes on from that table.
pub look-onto :
    (ram : ℕ → ℕ → ℕ) (root : ℕ) (ρ : List ℕ) (s j : ℕ) (is : List ℕ)
    → table_at ram root ρ ≡ some s
    → look ram root (onto ρ (j ∷ is)) ≡ look ram s (j ∷ is)
look-onto ram root [] s j is e = let same : root ≡ s = cc e in rw same refl
look-onto ram root (i ∷ ρ) s j is e = elim (Option-cases (table_at ram root ρ)) [
  | inl none' ↦ let bad : none ≡ some s = rw none' at e in absurd (cc bad)
  | inr (t, some') ↦
      let child : child_of (ram t i) ≡ some s = rw some' at e in
      let (here, small, to) = child_of-some (ram t i) s child in
      look-onto ram root ρ t i (j ∷ is) some' ∙ rw (here, small, to) refl
]

module _ {own : ℕ → List ℕ} {root : ℕ} {k : Vmm} (tree : IsTree own root k) (π : List ℕ) (t i e : ℕ)
    (three : length π ≡ 3) (at : table_at k.ram root π ≡ some t) where
  abbrev pub written : ℕ → ℕ → ℕ
  written = store k.ram t i e

  -- No table but the page table itself changes.
  above :
      (path : List ℕ) (s j : ℕ)
      → length path ≤ 2
      → table_at k.ram root path ≡ some s
      → written s j ≡ k.ram s j
  above path s j le p = elim (at_or_off s t j i) [
    | inl (q, r) ↦
        let same : path ≡ π =
          sym (tree.owned path s (omega (arith, le)) p)
          ∙ ap own q
          ∙ tree.owned π t (omega (arith, three)) at in
        absurd (omega (arith, le, three, ap length same))
    | inr off ↦ rw off refl
  ]

  pub table_at-written :
      (path : List ℕ) → length path ≤ 3 → table_at written root path ≡ table_at k.ram root path
  table_at-written [] le = refl
  table_at-written (j ∷ path) le =
      rw (table_at-written path (omega (arith, le)))
        (elim (Option-cases (table_at k.ram root path)) [
          | inl none' ↦ rw none' refl
          | inr (s, some') ↦ rw some' (ap child_of (above path s j (omega (arith, le)) some'))
        ])

  pub written-IsTree : IsTree own root (record k { ram = written })
  written-IsTree = record {
    frames = tree.frames;
    small = tree.small;
    owned = λ path s le p. tree.owned path s le (sym (table_at-written path le) ∙ p);
    used = λ path s le p. tree.used path s le (sym (table_at-written path le) ∙ p);
    no_huge_root = λ j p.
        let same = above [] root j (omega arith) refl in
        ap huge same ∙ tree.no_huge_root j (sym (ap present same) ∙ p);
  }

  -- The page that is mapped there.
  look-here : look written root (onto π (i ∷ [])) ≡ (if present e then leaf 0 e else absent)
  look-here =
      look-onto written root π t i [] (table_at-written π (omega (arith, three)) ∙ at)
      ∙ rw (store-at k.ram t i e) refl

  -- The other pages.
  look-there :
      (is path : List ℕ) (s : ℕ)
      → length path + length is ≡ 4
      → table_at k.ram root path ≡ some s
      → same_path (onto path is) (onto π (i ∷ [])) ≡ false
      → look written s is ≡ look k.ram s is
  look-there [] path s four p off = refl
  look-there (j ∷ []) path s four p off = elim (at_or_off s t j i) [
    | inl (q, r) ↦
        let same : path ≡ π =
          sym (tree.owned path s (omega (arith, four)) p)
          ∙ ap own q
          ∙ tree.owned π t (omega (arith, three)) at in
        let eq : onto path (j ∷ []) ≡ onto π (i ∷ []) = ap₂ (λ l x. onto l (x ∷ [])) same r in
        let yes' : same_path (onto path (j ∷ [])) (onto π (i ∷ [])) ≡ true =
          rw eq (same_path_refl (onto π (i ∷ []))) in
        absurd (cc (off, yes'))
    | inr other ↦ rw other refl
  ]
  look-there (j ∷ l ∷ is) path s four p off =
      let same = above path s j (omega (arith, four)) p in
      elim (Bool-cases (present (k.ram s j))) [
        | inr empty ↦ rw (same, empty) refl
        | inl here ↦ elim (Bool-cases (huge (k.ram s j))) [
          | inl big ↦ rw (same, here, big) refl
          | inr small ↦
              rw (same, here, small)
                (look-there (l ∷ is) (j ∷ path) (frame_of (k.ram s j)) (omega (arith, four))
                  (rw (p, here, small) refl) off)
        ]
      ]

  pub look-written :
      (is : List ℕ)
      → length is ≡ 4
      → look written root is ≡ (
          if same_path is (onto π (i ∷ []))
          then (if present e then leaf 0 e else absent)
          else look k.ram root is)
  look-written is four = elim (Bool-cases (same_path is (onto π (i ∷ [])))) [
    | inl here ↦ rw here (rw (same_path-eq is (onto π (i ∷ [])) here) look-here)
    | inr off ↦ rw off (look-there is [] root (omega (arith, four)) refl off)
  ]
