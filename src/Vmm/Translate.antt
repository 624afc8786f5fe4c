-- ===== src/Vmm/Translate.antt =====
-- The operations on page tables through the map that the tables stand for.
use toast_os.Prelude.{
  ℕ, zero, suc, ◌/◌, ◌%◌, ◌^◌, ◌≤◌, ◌≡◌, ◌≢◌, refl, ◌∙◌, ap, sym, Bool, true, false, Option, some,
  List, ◌==◌, arith, inl, inr, Bool-cases, if◌then◌else◌, ◌&&◌, length, leb, bit_or, bit_and,
}
use mathlib.Core.Path.{subst}
use toast_os.Prelude.Bits.{and-ones}
use toast_os.Pmm.Frames.{Used}
use toast_os.Vmm.{
  Vmm, present, user, huge, frame_of, index, user_space_end, page_entry, vmm_map_page, vmm_get_phys,
}
use toast_os.Vmm.Entries.{FlagsFit, frame_of-page_entry}
use toast_os.Vmm.Users.{indices}
use toast_os.Vmm.Tables.{Leaf, Leaf.leaf, Leaf.absent, look, IsTree, same_path}
use toast_os.Vmm.Mapping.{
  Mapped, Mapped.blocked, Mapped.refused, Mapped.mapped, vmm_map_page-Mapped,
}

-- The number of the page that an address stands in, of the 48 bits that are translated.
abbrev pub page_number : ℕ → ℕ
page_number v = v / 2 ^ 12 % 2 ^ 36

-- The physical address that a leaf gives: of a page of 4 KiB, 2 MiB or 1 GiB.
abbrev pub phys_of : Leaf → (v_addr : ℕ) → ℕ
phys_of absent v = 0
phys_of (leaf zero e) v = bit_or (frame_of e) (bit_and v 0xFFF)
phys_of (leaf (suc zero) e) v = bit_or (frame_of e) (bit_and v 0x1FFFFF)
phys_of (leaf (suc (suc left)) e) v = bit_or (frame_of e) (bit_and v 0x3FFFFFFF)

abbrev pub view : Vmm → ℕ → ℕ → Leaf
view k ctx v = look k.ram (k.contexts ctx) (indices v)

pub index-field : (s v : ℕ) → index s v ≡ v / 2 ^ s % 512
index-field s v = and-ones 9 (v / 2 ^ s)

pub same_page : (v w : ℕ) → same_path (indices v) (indices w) ≡ (page_number v == page_number w)
same_page v w = ground (
  arith,
  index-field 39 v,
  index-field 39 w,
  index-field 30 v,
  index-field 30 w,
  index-field 21 v,
  index-field 21 w,
  index-field 12 v,
  index-field 12 w,
)

-- No entry of a table is for a huge page.
abbrev pub NoHuge : (ℕ → ℕ) → Type 0
NoHuge table = (i : ℕ) → present (table i) ≡ true → huge (table i) ≡ false

pub vmm_get_phys-view :
    (k : Vmm) (ctx v : ℕ)
    → NoHuge (k.ram (k.contexts ctx))
    → vmm_get_phys k ctx v ≡ phys_of (view k ctx v) v
unfolding vmm_get_phys
vmm_get_phys-view k ctx v plain =
    let e4 : ℕ = k.ram (k.contexts ctx) (index 39 v) in
    let e3 : ℕ = k.ram (frame_of e4) (index 30 v) in
    let e2 : ℕ = k.ram (frame_of e3) (index 21 v) in
    let e1 : ℕ = k.ram (frame_of e2) (index 12 v) in
    elim (Bool-cases (present e4)) [
      | inr z4 ↦ rw z4 refl
      | inl p4 ↦ elim (Bool-cases (present e3)) [
        | inr z3 ↦ rw (p4, plain (index 39 v) p4, z3) refl
        | inl p3 ↦ elim (Bool-cases (huge e3)) [
          | inl h3 ↦ rw (p4, plain (index 39 v) p4, p3, h3) refl
          | inr s3 ↦ elim (Bool-cases (present e2)) [
            | inr z2 ↦ rw (p4, plain (index 39 v) p4, p3, s3, z2) refl
            | inl p2 ↦ elim (Bool-cases (huge e2)) [
              | inl h2 ↦ rw (p4, plain (index 39 v) p4, p3, s3, p2, h2) refl
              | inr s2 ↦ elim (Bool-cases (present e1)) [
                | inr z1 ↦ rw (p4, plain (index 39 v) p4, p3, s3, p2, s2, z1) refl
                | inl p1 ↦ rw (p4, plain (index 39 v) p4, p3, s3, p2, s2, p1) refl
              ]
            ]
          ]
        ]
      ]
    ]

-- What a call that returned `true` has done.
pub maps_page :
    {root : ℕ} {k k' : Vmm} {at : List ℕ} {e n : ℕ} {g : Bool} {out : Option (Bool × Vmm)}
    → Mapped root k at e g n out
    → out ≡ some (true, k')
    → (own : ℕ → List ℕ) × IsTree own root k'
      × (k'.contexts ≡ k.contexts)
      × ((is : List ℕ)
          → length is ≡ 4
          → look k'.ram root is ≡ (if same_path is at then leaf 0 e else look k.ram root is))
maps_page (blocked left e' b) eq = cc eq
maps_page (refused own k'' tree c same why) eq = cc eq
maps_page {k' = k'} (mapped own k'' tree c same) eq =
    let it : k' ≡ k'' = cc eq in rw it (own, tree, c, same)

-- Where the page tables of a context form a tree and the flags leave the address bits alone, after
-- a vmm_map_page that succeeds vmm_get_phys translates every address of that page to the same
-- offset in the frame, and every other address as before.
pub vmm_get_phys-vmm_map_page :
    {own : ℕ → List ℕ} (k k' : Vmm) (ctx v p flags : ℕ)
    → IsTree own (k.contexts ctx) k
    → FlagsFit flags
    → vmm_map_page k ctx v p flags ≡ some (true, k')
    → (w : ℕ)
    → vmm_get_phys k' ctx w ≡ (
        if page_number w == page_number v
        then bit_or (frame_of p) (bit_and w 0xFFF)
        else vmm_get_phys k ctx w)
vmm_get_phys-vmm_map_page k k' ctx v p flags tree fit done w =
    let (own', tree', c, look') = maps_page (vmm_map_page-Mapped k ctx v p flags tree fit) done in
    let root : ℕ = k.contexts ctx in
    let e : ℕ = page_entry p flags in
    let here : view k' ctx w ≡ (if page_number w == page_number v then leaf 0 e else view k ctx w) =
      ap (λ f. look k'.ram (f ctx) (indices w)) c
      ∙ look' (indices w) refl
      ∙ ap (λ b. if b then leaf 0 e else view k ctx w) (same_page w v) in
    vmm_get_phys-view k' ctx w (subst (λ f. NoHuge (k'.ram (f ctx))) (sym c) tree'.no_huge_root)
    ∙ ap (λ l. phys_of l w) here
    ∙ elim (Bool-cases (page_number w == page_number v)) [
      | inl at ↦ rw (at, frame_of-page_entry p flags fit) refl
      | inr off ↦ rw off (sym (vmm_get_phys-view k ctx w tree.no_huge_root))
    ]

-- Where the page tables of a context form a tree, the flags leave the address bits alone, three
-- frames are free, the frame at address 0 is in use, the address is not refused and no huge page
-- is in the way, vmm_map_page returns and succeeds.
pub vmm_map_page_succeeds :
    {own : ℕ → List ℕ} (k : Vmm) (ctx v p flags : ℕ)
    → IsTree own (k.contexts ctx) k
    → FlagsFit flags
    → (user flags && leb user_space_end v) ≡ false
    → 3 ≤ k.pmm.free_frames
    → Used k.pmm 0
    → ((left e : ℕ) → view k ctx v ≢ leaf (suc left) e)
    → (k' : Vmm) × (vmm_map_page k ctx v p flags ≡ some (true, k'))
vmm_map_page_succeeds k ctx v p flags tree fit pass three used open' =
    go (vmm_map_page-Mapped k ctx v p flags tree fit)
  where
    go :
        {out : Option (Bool × Vmm)}
        → Mapped
            (k.contexts ctx)
            k
            (indices v)
            (page_entry p flags)
            (user flags && leb user_space_end v)
            3
            out
        → (k' : Vmm) × (out ≡ some (true, k'))
    go (blocked left e b) = absurd (open' left e b)
    go (refused own k' tree c same (inl g)) = cc (g, pass)
    go (refused own k' tree c same (inr (inl lt))) = absurd (omega (arith, three, lt))
    go (refused own k' tree c same (inr (inr z))) = absurd (omega (arith, used, z))
    go (mapped own k' tree c same) = (k', refl)
