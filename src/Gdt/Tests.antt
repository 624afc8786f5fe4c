-- ===== src/Gdt/Tests.antt =====
-- The theorem on kernel/gdt/gdt.c at the address of a TSS in the upper half.
use toast_os.Prelude.{[]}
use toast_os.Gdt.{Gdt}

abbrev zero_gdt : Gdt
zero_gdt = record {
  entries = [];
  tss_entry = record {
    limit_low = 0;
    base_low = 0;
    base_mid = 0;
    access = 0;
    granularity = 0;
    base_high = 0;
    base_upper = 0;
    reserved = 0;
  };
  tss_rsp_0 = 0;
  tss_iopb = 0;
  gdtr_lim = 0;
  gdtr_base = 0;
}
