-- ===== src/Vmm/Tables.antt =====
-- The page tables of one address space as a tree, and what a new table or a new page does to it.
--
-- A path is a list of indices from the PML4 down, the last index first.
use toast_os.Prelude.{
  ℕ, ◌+◌, ◌*◌, ◌/◌, ◌%◌, ◌^◌, ◌≤◌, ◌≡◌, refl, ap₂, Bool, true, false, Option, none, some, List, [],
  ◌∷◌, ◌==◌, not, arith, inl, inr, Bool-cases, if◌then◌else◌, ◌&&◌, length,
}
use toast_os.Pmm.Frames
use toast_os.Pmm.Frames.{Used, Free, mark}
use toast_os.Vmm.{Vmm, present, huge, frame_of}

-- The table that an entry leads to.
abbrev pub child_of : ℕ → Option ℕ
child_of e = if present e && not (huge e) then some (frame_of e) else none

abbrev pub then_child : (ℕ → ℕ → ℕ) → Option ℕ → ℕ → Option ℕ
then_child ram none i = none
then_child ram (some t) i = child_of (ram t i)

abbrev pub table_at : (ℕ → ℕ → ℕ) → ℕ → List ℕ → Option ℕ
table_at ram root [] = some root
table_at ram root (i ∷ path) = then_child ram (table_at ram root path) i

-- What an address leads to along the indices from a table on: nothing, or an entry for a page, with
-- the number of levels that are left below it.
pub data Leaf : Type 0 where
  absent : Leaf
  leaf : (left : ℕ) → (e : ℕ) → Leaf

abbrev pub follow : ℕ → List ℕ → Leaf → Leaf
follow e [] below = if present e then leaf 0 e else absent
follow e (i ∷ is) below =
    if not (present e) then absent else if huge e then leaf (length (i ∷ is)) e else below

abbrev pub look : (ℕ → ℕ → ℕ) → ℕ → List ℕ → Leaf
look ram t [] = absent
look ram t (i ∷ is) = follow (ram t i) is (look ram (frame_of (ram t i)) is)

-- Each table within three levels of the root is reached by one path, which `own` knows, is a whole
-- frame, in use, and the entries of the root are no huge pages.
pub record IsTree (own : ℕ → List ℕ) (root : ℕ) (k : Vmm) : Type 0 where
  pub frames : Frames.IsValid k.pmm
  pub small : k.pmm.bitmap_bytes * 8 * 4096 ≤ 2 ^ 52
  pub owned :
      (path : List ℕ) (t : ℕ) → length path ≤ 3 → table_at k.ram root path ≡ some t → own t ≡ path
  pub used :
      (path : List ℕ) (t : ℕ)
      → length path ≤ 3
      → table_at k.ram root path ≡ some t
      → Used k.pmm (t / 4096) × (t % 4096 ≡ 0)
  pub no_huge_root : (i : ℕ) → present (k.ram root i) ≡ true → huge (k.ram root i) ≡ false

-- Whether two paths are one.
abbrev pub same_path : List ℕ → List ℕ → Bool
same_path [] [] = true
same_path [] (y ∷ ys) = false
same_path (x ∷ xs) [] = false
same_path (x ∷ xs) (y ∷ ys) = (x == y) && same_path xs ys

pub same_path-eq : (xs ys : List ℕ) → same_path xs ys ≡ true → xs ≡ ys
same_path-eq [] [] e = refl
same_path-eq [] (y ∷ ys) e = cc
same_path-eq (x ∷ xs) [] e = cc
same_path-eq (x ∷ xs) (y ∷ ys) e =
    let head : x ≡ y = ground arith in
    let tail : same_path xs ys ≡ true = ground arith in
    ap₂ (λ a l. a ∷ l) head (same_path-eq xs ys tail)

pub same_path_refl : (xs : List ℕ) → same_path xs xs ≡ true
same_path_refl [] = refl
same_path_refl (x ∷ xs) = ground (arith, same_path_refl xs)

pub child_of-some :
    (e t : ℕ) → child_of e ≡ some t → (present e ≡ true) × (huge e ≡ false) × (frame_of e ≡ t)
child_of-some e t h = elim (Bool-cases (present e)) [
  | inr absent' ↦ absurd (ground (arith, absent', h))
  | inl here ↦ elim (Bool-cases (huge e)) [
    | inl big ↦ absurd (ground (arith, here, big, h))
    | inr small ↦ (here, small, ground (arith, here, small, h))
  ]
]

-- What may become of the entry `j` of a table at `path` while tables are added.
pub data Change (ram ram' : ℕ → ℕ → ℕ) (path : List ℕ) (s j : ℕ) : Type 0 where
  kept : ram' s j ≡ ram s j → Change ram ram' path s j
  raised :
      length path ≤ 2
      → present (ram s j) ≡ true
      → huge (ram s j) ≡ false
      → present (ram' s j) ≡ true
      → huge (ram' s j) ≡ false
      → frame_of (ram' s j) ≡ frame_of (ram s j)
      → Change ram ram' path s j
  added :
      length path ≤ 2
      → present (ram s j) ≡ false
      → present (ram' s j) ≡ true
      → huge (ram' s j) ≡ false
      → ((i : ℕ) → ram' (frame_of (ram' s j)) i ≡ 0)
      → Change ram ram' path s j

-- Such changes are invisible to every translation.
module _ (ram ram' : ℕ → ℕ → ℕ) (root : ℕ)
    (all : (path : List ℕ) (s j : ℕ)
      → length path ≤ 3
      → table_at ram root path ≡ some s
      → Change ram ram' path s j) where
  pub look-Change :
      (is path : List ℕ) (s : ℕ)
      → length path + length is ≡ 4
      → table_at ram root path ≡ some s
      → look ram' s is ≡ look ram s is
  look-Change [] path s four at = refl
  look-Change (j ∷ []) path s four at = elim (all path s j (omega (arith, four)) at) [
    | kept e ↦ rw e refl
    | raised short a b c d f ↦ absurd (omega (arith, four))
    | added short a b c d ↦ absurd (omega (arith, four))
  ]
  look-Change (j ∷ i ∷ is) path s four at = elim (all path s j (omega (arith, four)) at) [
    | kept e ↦ elim (Bool-cases (present (ram s j))) [
      | inr absent' ↦ rw (e, absent') refl
      | inl here ↦ elim (Bool-cases (huge (ram s j))) [
        | inl big ↦ rw (e, here, big) refl
        | inr small ↦
            let at' : table_at ram root (j ∷ path) ≡ some (frame_of (ram s j)) =
              rw (at, here, small) refl in
            rw (e, here, small)
              (look-Change (i ∷ is) (j ∷ path) (frame_of (ram s j)) (omega (arith, four)) at')
      ]
    ]
    | raised short a b c d f ↦
        let at' : table_at ram root (j ∷ path) ≡ some (frame_of (ram s j)) = rw (at, a, b) refl in
        rw (a, b, c, d, f)
          (look-Change (i ∷ is) (j ∷ path) (frame_of (ram s j)) (omega (arith, four)) at')
    | added short a c d zeros ↦ rw (a, c, d, zeros i) (zero_row is)
  ]
    where
      zero_row : (is : List ℕ) → follow 0 is (look ram' (frame_of 0) is) ≡ absent
      zero_row [] = refl
      zero_row (i ∷ is) = refl
