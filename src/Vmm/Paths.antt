-- ===== src/Vmm/Paths.antt =====
-- Where the tables stand after an entry has been written.
use toast_os.Prelude.{
  ℕ, suc, ◌≤◌, ◌≡◌, ◌≢◌, refl, ◌∙◌, ap, sym, true, false, none, some, List, [], ◌∷◌, ◌==◌, ==_refl,
  arith, inl, inr, Bool-cases, Option-cases, if◌then◌else◌, ◌&&◌, length, ◌⊎◌,
}
use toast_os.Vmm.{present, store, zero_page}
use toast_os.Vmm.Tables.{child_of, then_child, table_at, same_path, same_path-eq, same_path_refl}

-- An entry is the one that was written, or another.
pub at_or_off : (q p j i : ℕ) → ((q ≡ p) × (j ≡ i)) ⊎ (((q == p) && (j == i)) ≡ false)
at_or_off q p j i = elim (Bool-cases ((q == p) && (j == i))) [
  | inl e ↦ inl (ground arith, ground arith)
  | inr e ↦ inr e
]

pub store-at : (ram : ℕ → ℕ → ℕ) (p i e : ℕ) → store ram p i e p i ≡ e
store-at ram p i e = rw (==_refl p, ==_refl i) refl

-- An entry that leads where the old one led moves no table.
module _ (ram : ℕ → ℕ → ℕ) (root t i e : ℕ) (same : child_of e ≡ child_of (ram t i)) where
  child-store : (s j : ℕ) → child_of (store ram t i e s j) ≡ child_of (ram s j)
  child-store s j = elim (at_or_off s t j i) [
    | inl (p, q) ↦ rw (p, q, store-at ram t i e) same
    | inr off ↦ rw off refl
  ]

  pub table_at-store :
      (path : List ℕ) → table_at (store ram t i e) root path ≡ table_at ram root path
  table_at-store [] = refl
  table_at-store (j ∷ path) =
      rw (table_at-store path) (elim (Option-cases (table_at ram root path)) [
        | inl e ↦ rw e refl
        | inr (s, e) ↦ rw e (child-store s j)
      ])

-- A zeroed table that no other entry leads to is one more table, at the entry that it is written to.
module _ (ram : ℕ → ℕ → ℕ) (root : ℕ) (own : ℕ → List ℕ)
    (owned : (path : List ℕ) (t : ℕ)
      → length path ≤ 3
      → table_at ram root path ≡ some t
      → own t ≡ path)
    (π : List ℕ) (t i e n : ℕ) (short : length π ≤ 2) (at : table_at ram root π ≡ some t)
    (empty : present (ram t i) ≡ false) (leads : child_of e ≡ some n)
    (fresh : (path : List ℕ) (s : ℕ)
      → length path ≤ 3
      → table_at ram root path ≡ some s
      → s ≢ n) where
  abbrev pub extended : ℕ → ℕ → ℕ
  extended = store (zero_page ram n) t i e

  -- Its own row is empty, and no table but it and `t` has changed.
  pub extended-fresh : (j : ℕ) → extended n j ≡ 0
  extended-fresh j = elim (at_or_off n t j i) [
    | inl (p, q) ↦ absurd (fresh π t (omega (arith, short)) at (sym p))
    | inr off ↦ rw (off, ==_refl n) refl
  ]

  pub extended-old : (s j : ℕ) → s ≢ n → ((s == t) && (j == i)) ≡ false → extended s j ≡ ram s j
  extended-old s j ne off = rw off (ground (arith, ne))

  longer :
      (j : ℕ) (path : List ℕ) → length path ≡ suc (length π) → same_path (j ∷ path) (i ∷ π) ≡ false
  longer j path long = elim (Bool-cases (same_path (j ∷ path) (i ∷ π))) [
    | inl e ↦ absurd (omega (arith, long, ap length (same_path-eq (j ∷ path) (i ∷ π) e)))
    | inr e ↦ e
  ]

  -- A table that was there keeps its children, and has one more at the entry that was written.
  old_child :
      (j : ℕ) (path : List ℕ)
      → length (j ∷ path) ≤ 3
      → then_child extended (table_at ram root path) j
        ≡ (if same_path (j ∷ path) (i ∷ π) then some n else table_at ram root (j ∷ path))
  old_child j path le = elim (Option-cases (table_at ram root path)) [
    | inl none' ↦ elim (Bool-cases (same_path (j ∷ path) (i ∷ π))) [
      | inl here ↦
          let eq : path ≡ π = same_path-eq path π (ground arith) in
          absurd (cc (none', at, ap (table_at ram root) eq))
      | inr off ↦ rw (none', off) refl
    ]
    | inr (s, some') ↦ elim (at_or_off s t j i) [
      | inl (p, q) ↦
          let eq : path ≡ π =
            sym (owned path s (omega (arith, le)) some')
            ∙ ap own p
            ∙ owned π t (omega (arith, short)) at in
          let here : same_path (j ∷ path) (i ∷ π) ≡ true =
            rw (q, eq, ==_refl i) (same_path_refl π) in
          rw (some', here, p, q, store-at (zero_page ram n) t i e) leads
      | inr off ↦ elim (Bool-cases (same_path (j ∷ path) (i ∷ π))) [
        | inl here ↦
            let eq : path ≡ π = same_path-eq path π (ground arith) in
            let s≡t : s ≡ t = cc (some', at, ap (table_at ram root) eq) in
            let q : j ≡ i = ground arith in absurd (ground (arith, off, s≡t, q))
        | inr off' ↦
            rw (some', off')
              (ap child_of (extended-old s j (fresh path s (omega (arith, le)) some') off))
      ]
    ]
  ]

  pub table_at-extended :
      (path : List ℕ)
      → length path ≤ 3
      → table_at extended root path
        ≡ (if same_path path (i ∷ π) then some n else table_at ram root path)
  table_at-extended [] le = refl
  table_at-extended (j ∷ path) le =
      let ih = table_at-extended path (omega (arith, le)) in
      elim (Bool-cases (same_path path (i ∷ π))) [
        | inl below ↦
            let here : path ≡ i ∷ π = same_path-eq path (i ∷ π) below in
            let old : table_at ram root (j ∷ path) ≡ none =
              ap (λ l. then_child ram (table_at ram root l) j) here ∙ rw (at, empty) refl in
            rw (ih, below, longer j path (ap length here), extended-fresh j) (sym old)
        | inr off ↦ rw (ih, off) (old_child j path le)
      ]
