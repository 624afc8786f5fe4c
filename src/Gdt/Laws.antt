-- ===== src/Gdt/Laws.antt =====
-- What the processor reads back from the descriptor of the TSS in kernel/gdt/gdt.c.
use toast_os.Prelude.{ℕ, ◌+◌, ◌*◌, ◌/◌, ◌%◌, ◌^◌, ◌<◌, ◌≡◌, refl, arith}
use toast_os.Prelude.Bits.{and-ones}
use toast_os.Gdt.{Gdt, TssEntry, encode_tss_seg, sizeof_tss}

-- The base and the limit that the fields of a descriptor make up.
abbrev pub base_of : TssEntry → ℕ
base_of e = e.base_low + e.base_mid * 2 ^ 16 + e.base_high * 2 ^ 24 + e.base_upper * 2 ^ 32

abbrev pub limit_of : TssEntry → ℕ
limit_of e = e.limit_low + e.granularity % 16 * 2 ^ 16

-- The descriptor that encode_tss_seg writes for an address of 64 bits has that address for its
-- base, and the last byte of the TSS for its limit.
pub encode_tss_seg_lem :
    (g : Gdt) (base : ℕ)
    → base < 2 ^ 64
    → let e = (encode_tss_seg g base).tss_entry in
      (base_of e ≡ base) × (limit_of e + 1 ≡ sizeof_tss)
unfolding encode_tss_seg
encode_tss_seg_lem g base small = (
  omega (
    arith,
    and-ones 16 base,
    and-ones 8 (base / 2 ^ 16),
    and-ones 8 (base / 2 ^ 24),
    and-ones 32 (base / 2 ^ 32),
  ),
  refl,
)
