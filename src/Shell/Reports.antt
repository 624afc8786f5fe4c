-- ===== src/Shell/Reports.antt =====
-- That the commands of the shell which report come to their end: no number runs past the buffer of
-- printf, and no argument is missing.
use toast_os.Prelude.{
  ℕ, ◌+◌, ◌*◌, ◌/◌, ◌%◌, ◌^◌, ◌<◌, ◌≡◌, refl, ap, sym, append_assoc, ◌∙◌, Option, none, some, List,
  [], ◌∷◌, ◌++◌, codes, u64, ◌==◌, if◌then◌else◌, ltb, Bool-cases, inl, inr, arith,
}
use toast_os.Stdio.{printf, vprintf_core, print_spec, printf_number, digits}
use toast_os.Stdio.Ends.{Ends, Ends-append, Ends-blank, Ends-put, Ends-nil}
use toast_os.Timer.{Timer}
use toast_os.Pmm.{Pmm}
use toast_os.Pmm.Init.{Entry, usable}
use toast_os.Vmm.{Vmm}
use toast_os.Heap.{Heap, KHeap, heap_is_valid}
use toast_os.Stdio.Calls.{Call, put, format, run_call, prints, number, string}
use toast_os.Shell.Info.{
  pmm_lines, vmm_lines, heap_lines, heap_report, cmd_meminfo, memmap_line, memmap_lines, cmd_memmap,
  cmd_fetch, mib, size_call, memmap_type_str,
}

Ends-pmm_lines : (pmm : Pmm) (bitmap : ℕ) → Ends (pmm_lines pmm bitmap)
unfolding pmm_lines printf vprintf_core print_spec printf_number digits prints run_call
Ends-pmm_lines pmm bitmap = Ends-blank (pmm_lines pmm bitmap) (_, refl)

Ends-vmm_lines : (v : Vmm) → Ends (vmm_lines v)
unfolding vmm_lines printf vprintf_core print_spec printf_number digits prints run_call
Ends-vmm_lines v = Ends-blank (vmm_lines v) (_, refl)

Ends-heap_lines : (heap : Option Heap) → Ends (heap_lines heap)
unfolding heap_lines heap_report printf vprintf_core print_spec printf_number digits prints run_call
Ends-heap_lines none = (_, refl)
Ends-heap_lines (some heap) = elim (Bool-cases (heap_is_valid (some heap))) [
  | inl e ↦ rw e (Ends-blank (heap_report heap) (_, refl))
  | inr e ↦ rw e (_, refl)
]

-- meminfo comes to its end whatever the kernel's numbers are.
pub Ends-cmd_meminfo : (k : KHeap) (bitmap : ℕ) → Ends (cmd_meminfo k bitmap)
unfolding cmd_meminfo
Ends-cmd_meminfo k bitmap = Ends-put _ _ (
    Ends-put _ _ (
      Ends-put _ _ (
        Ends-append _ _ (Ends-pmm_lines k.vmm.pmm bitmap) (
          Ends-append _ _ (Ends-vmm_lines k.vmm)
            (Ends-put _ _ (Ends-append _ _ (Ends-heap_lines k.k_heap) (Ends-put _ _ Ends-nil)))))))

Ends-size_call : (ent : Entry) → Ends (size_call ent ∷ [])
unfolding printf vprintf_core print_spec printf_number digits prints run_call
Ends-size_call ent = elim (Bool-cases (ltb 0 (ent.len / mib))) [
  | inl e ↦
      rw e
        (Ends-blank (format (codes "  (%llu MiB)\n") (number (ent.len / mib) ∷ []) ∷ []) (_, refl))
  | inr e ↦ rw e (
      Ends-blank (format (codes "  (%llu KiB)\n") (number (ent.len % mib / 1024) ∷ []) ∷ [])
        (_, refl))
]

region_line : ℕ → Entry → List Call
region_line i ent =
    format (codes " [%llu] 0x%016llx   0x%016llx   %s")
      (number i ∷ number ent.base ∷ number ent.len ∷ string (memmap_type_str ent.typ) ∷ [])
    ∷ []

Ends-region_line : (i : ℕ) (ent : Entry) → Ends (region_line i ent)
unfolding region_line printf vprintf_core print_spec printf_number digits prints run_call
Ends-region_line i ent = Ends-blank (region_line i ent) (_, refl)

Ends-memmap_line : (i : ℕ) (ent : Entry) → Ends (memmap_line i ent)
unfolding memmap_line region_line
Ends-memmap_line i ent =
    Ends-append (region_line i ent) _ (Ends-region_line i ent) (Ends-size_call ent)

Ends-memmap_lines : (i total : ℕ) (ents : List Entry) → Ends (memmap_lines i total ents).0
unfolding memmap_lines
Ends-memmap_lines i total [] = Ends-nil
Ends-memmap_lines i total (ent ∷ ents) =
    Ends-append _ _ (Ends-memmap_line i ent)
      (Ends-memmap_lines (i + 1) (if ent.typ == usable then u64 (total + ent.len) else total) ents)

-- The bytes in the usable entries.
abbrev pub usable_bytes : List Entry → ℕ
usable_bytes [] = 0
usable_bytes (ent ∷ ents) = (if ent.typ == usable then ent.len else 0) + usable_bytes ents

memmap_lines-total :
    (i total : ℕ) (ents : List Entry)
    → total < 2 ^ 64
    → (memmap_lines i total ents).1 ≡ u64 (total + usable_bytes ents)
unfolding memmap_lines
memmap_lines-total i total [] h = omega arith
memmap_lines-total i total (ent ∷ ents) h = elim (Bool-cases (ent.typ == usable)) [
  | inl e ↦
      rw e (memmap_lines-total (i + 1) (u64 (total + ent.len)) ents (omega arith) ∙ omega arith)
  | inr e ↦ rw e (
      memmap_lines-total (i + 1) total ents h
      ∙ ap (λ b. u64 (total + b)) {x = usable_bytes ents} {y = 0 + usable_bytes ents} (omega arith))
]

total_line : (total : ℕ) → List Call
total_line total =
    format (codes " Total usable: %llu MiB (%llu bytes)\n")
      (number (total / mib) ∷ number total ∷ [])
    ∷ []

Ends-total_line : (total : ℕ) (bar : List ℕ) → Ends (total_line total ++ put bar ∷ [])
unfolding total_line printf vprintf_core print_spec printf_number digits prints run_call
Ends-total_line total bar = Ends-blank (total_line total ++ put bar ∷ []) (_, refl)

pub Ends-cmd_memmap : (response : Option (List Entry)) → Ends (cmd_memmap response)
unfolding cmd_memmap total_line
Ends-cmd_memmap none = Ends-put _ _ Ends-nil
Ends-cmd_memmap (some ents) = Ends-put _ _ (
    Ends-put _ _ (
      Ends-put _ _ (
        Ends-append _ _ (Ends-memmap_lines 0 0 ents)
          (Ends-put _ _ (Ends-total_line (memmap_lines 0 0 ents).1 _)))))

-- The line of the total, and what is printed ahead of it.
cmd_memmap-total :
    (ents : List Entry)
    → (lines : List Call) × (cmd_memmap (some ents)
        ≡ lines
          ++ format (codes " Total usable: %llu MiB (%llu bytes)\n") (
              number (usable_bytes ents % 2 ^ 64 / (1024 * 1024))
              ∷ number (usable_bytes ents % 2 ^ 64)
              ∷ [])
            ∷ put (codes "========================================================\n")
            ∷ [])
unfolding cmd_memmap
cmd_memmap-total ents =
    let bar = codes "========================================================\n" in
    let lines = (memmap_lines 0 0 ents).0 in
    let total : (memmap_lines 0 0 ents).1 ≡ usable_bytes ents % 2 ^ 64 =
      memmap_lines-total 0 0 ents (omega arith)
      ∙ ap u64 {x = 0 + usable_bytes ents} {y = usable_bytes ents} (omega arith) in
    let shown = λ (t : ℕ).
      format (codes " Total usable: %llu MiB (%llu bytes)\n") (number (t / mib) ∷ number t ∷ [])
      ∷ put bar
      ∷ [] in
    (
      put bar
          ∷ put (codes " #   Base                 Length               Type\n")
          ∷ put bar
          ∷ (lines ++ put bar ∷ []),
      ap
            (λ t.
              put bar
              ∷ put (codes " #   Base                 Length               Type\n")
              ∷ put bar
              ∷ (lines ++ put bar ∷ shown t))
            total
          ∙ ap
              (λ l.
                put bar
                ∷ put (codes " #   Base                 Length               Type\n")
                ∷ put bar
                ∷ l)
              (sym (append_assoc lines (put bar ∷ []) (shown (usable_bytes ents % 2 ^ 64)))),
    )

pub Ends-cmd_fetch :
    (timer : Timer) (pmm : Pmm) (cpu_name : List ℕ) → Ends (cmd_fetch timer pmm cpu_name)
unfolding cmd_fetch printf vprintf_core print_spec printf_number digits prints run_call
Ends-cmd_fetch timer pmm cpu_name = Ends-blank (cmd_fetch timer pmm cpu_name) (_, refl)

-- meminfo, memmap and fetch come to their end whatever they report on, no number passing the
-- buffer of printf and no argument missing; and the last line that memmap prints, ahead of the
-- closing bar, has the sum, modulo 2^64, of the lengths of the usable entries, in MiB and in
-- bytes.
pub reports_end :
    (k : KHeap) (bitmap : ℕ) (timer : Timer) (pmm : Pmm) (cpu_name : List ℕ) (ents : List Entry)
    → Ends (cmd_meminfo k bitmap)
      × Ends (cmd_memmap (some ents))
      × Ends (cmd_fetch timer pmm cpu_name)
      × ((lines : List Call) × (cmd_memmap (some ents)
            ≡ lines
              ++ format (codes " Total usable: %llu MiB (%llu bytes)\n") (
                  number (usable_bytes ents % 2 ^ 64 / (1024 * 1024))
                  ∷ number (usable_bytes ents % 2 ^ 64)
                  ∷ [])
                ∷ put (codes "========================================================\n")
                ∷ []))
reports_end k bitmap timer pmm cpu_name ents = (
  Ends-cmd_meminfo k bitmap,
  Ends-cmd_memmap (some ents),
  Ends-cmd_fetch timer pmm cpu_name,
  cmd_memmap-total ents,
)
