-- ===== src/Gdt.antt =====
-- The segment descriptors, kernel/gdt/gdt.c.
mod Laws
mod Tests
use toast_os.Prelude.{
  ℕ, ◌+◌, ◌-◌, ◌*◌, ◌/◌, ◌^◌, bit_and, bit_or, List, [], ◌∷◌, set, u8, replicate,
}

pub record GdtEntry : Type 0 where
  pub seg_lim : ℕ
  pub seg_base_low : ℕ
  pub seg_base_mid : ℕ
  pub seg_access : ℕ
  pub seg_granularity : ℕ
  pub seg_base_high : ℕ

pub record TssEntry : Type 0 where
  pub limit_low : ℕ
  pub base_low : ℕ
  pub base_mid : ℕ
  pub access : ℕ
  pub granularity : ℕ
  pub base_high : ℕ
  pub base_upper : ℕ
  pub reserved : ℕ

-- `gdt_table`, the fields of the TSS that the code writes, and the register that `gdt_flush` loads.
pub record Gdt : Type 0 where
  pub entries : List GdtEntry
  pub tss_entry : TssEntry
  pub tss_rsp_0 : ℕ
  pub tss_iopb : ℕ
  pub gdtr_lim : ℕ
  pub gdtr_base : ℕ

abbrev pub gdt_present : ℕ
gdt_present = 128

abbrev pub gdt_dpl_ring0 : ℕ
gdt_dpl_ring0 = 0

abbrev pub gdt_dpl_ring3 : ℕ
gdt_dpl_ring3 = 96

abbrev pub gdt_descriptor : ℕ
gdt_descriptor = 16

abbrev pub gdt_executable : ℕ
gdt_executable = 8

abbrev pub gdt_readable : ℕ
gdt_readable = 2

abbrev pub gdt_writeable : ℕ
gdt_writeable = 2

abbrev pub gdt_long_mode : ℕ
gdt_long_mode = 32

-- `sizeof(TSS_descriptor)`, of a packed struct, and `sizeof(gdt_table)`
abbrev pub sizeof_tss : ℕ
sizeof_tss = 104

abbrev pub sizeof_gdt_table : ℕ
sizeof_gdt_table = 5 * 8 + 16

unfoldable pub encode_gdt_seg : Gdt → (index access gran : ℕ) → Gdt
encode_gdt_seg g index access gran = record g {
  entries = set g.entries index (record {
    seg_lim = 0;
    seg_base_low = 0;
    seg_base_mid = 0;
    seg_access = u8 access;
    seg_granularity = u8 gran;
    seg_base_high = 0;
  });
}

unfoldable pub encode_tss_seg : Gdt → (base : ℕ) → Gdt
encode_tss_seg g base =
    let lim = sizeof_tss - 1 in
    record g {
      tss_entry = record {
        base_low = bit_and base 0xFFFF;
        limit_low = bit_and lim 0xFFFF;
        base_mid = bit_and (base / 2 ^ 16) 0xFF;
        access = 0x89;
        granularity = bit_and (lim / 2 ^ 16) 0x0F;
        base_high = bit_and (base / 2 ^ 24) 0xFF;
        base_upper = bit_and (base / 2 ^ 32) 0xFFFFFFFF;
        reserved = 0;
      };
    }

unfoldable pub load_tss : Gdt → (rsp0 : ℕ) → Gdt
load_tss g rsp0 = record g { tss_rsp_0 = rsp0 }

-- The addresses of `tss` and of `gdt_table` are the linker's.
unfoldable pub init_gdt : Gdt → (tss gdt_table : ℕ) → Gdt
unfolding encode_gdt_seg encode_tss_seg
init_gdt g0 tss gdt_table =
    let code = bit_or gdt_descriptor (bit_or gdt_executable gdt_readable) in
    let data_seg = bit_or gdt_descriptor gdt_writeable in
    let ring0 = bit_or gdt_present gdt_dpl_ring0 in
    let ring3 = bit_or gdt_present gdt_dpl_ring3 in
    let g1 = encode_gdt_seg g0 0 0 0 in
    let g2 = encode_gdt_seg g1 1 (bit_or ring0 code) gdt_long_mode in
    let g3 = encode_gdt_seg g2 2 (bit_or ring0 data_seg) 0 in
    let g4 = encode_gdt_seg g3 3 (bit_or ring3 data_seg) 0 in
    let g5 = encode_gdt_seg g4 4 (bit_or ring3 code) gdt_long_mode in
    let g6 = encode_tss_seg (record g5 { tss_iopb = sizeof_tss }) tss in
    record g6 { gdtr_lim = sizeof_gdt_table - 1; gdtr_base = gdt_table }
