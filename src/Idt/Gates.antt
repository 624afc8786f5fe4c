-- ===== src/Idt/Gates.antt =====
-- Where the gates lead.
use toast_os.Prelude.{
  ℕ, zero, suc, ◌+◌, ◌-◌, ◌*◌, ◌/◌, ◌^◌, ◌<◌, ◌≡◌, refl, ◌∙◌, ap, true, false, Option, none, some,
  ◌==◌, if◌then◌else◌, ltb, leb, ◌||◌, ◌&&◌, arith, inl, inr, Bool-cases, bit_and,
}
use toast_os.Prelude.Bits.{and-ones}
use toast_os.Idt.{
  Idt, IdtEntry, gate, gdt_cs, int_gate_flags, encode_interrupt_gate, encode_gates, isr_config,
  irq_config, pic_config, init_idt,
}

-- The address that the processor takes from a gate that is present.
abbrev pub target : IdtEntry → Option ℕ
target e =
    if bit_and e.flags 128 == 0
    then none
    else some (e.base_lo + e.base_mid * 2 ^ 16 + e.base_hi * 2 ^ 32)

gate-target : (base : ℕ) → base < 2 ^ 64 → target (gate base gdt_cs int_gate_flags) ≡ some base
gate-target base lt =
    ap some
      {x = bit_and base 0xFFFF
        + bit_and (base / 2 ^ 16) 0xFFFF * 2 ^ 16
        + bit_and (base / 2 ^ 32) 0xFFFFFFFF * 2 ^ 32}
      {y = base}
      (omega
        (arith, lt, and-ones 16 base, and-ones 16 (base / 2 ^ 16), and-ones 32 (base / 2 ^ 32)))

target-encode_gates :
    (n i : ℕ) (stub : ℕ → ℕ) (t : Idt) (v : ℕ)
    → ((w : ℕ) → stub w < 2 ^ 64)
    → target ((encode_gates n i stub t).idt_ent v)
      ≡ (if leb i v && ltb v (i + n) then some (stub v) else target (t.idt_ent v))
unfolding encode_gates encode_interrupt_gate
target-encode_gates zero i stub t v lt =
    let off : (leb i v && ltb v (i + 0)) ≡ false = ground arith in rw off refl
target-encode_gates (suc n) i stub t v lt =
    let t1 : Idt = encode_interrupt_gate t i (stub i) gdt_cs int_gate_flags in
    target-encode_gates n (i + 1) stub t1 v lt ∙ elim (Bool-cases (v == i)) [
      | inl here ↦
          let same : i ≡ v = ground (arith, here) in
          let past : (leb (i + 1) v && ltb v (i + 1 + n)) ≡ false = ground (arith, here) in
          let inside : (leb i v && ltb v (i + suc n)) ≡ true = ground (arith, here) in
          rw (past, inside, here) (gate-target (stub i) (lt i) ∙ ap (λ w. some (stub w)) same)
      | inr there ↦
          let same : (leb (i + 1) v && ltb v (i + 1 + n)) ≡ (leb i v && ltb v (i + suc n)) =
            ground (arith, there) in
          rw (same, there) refl
    ]

-- After initIDT, with stubs at 64-bit addresses, the gates of the vectors 0 to 31, 128 and 177
-- lead to the address of their exception stub, those of 32 to 47 to the stub of their interrupt
-- line, and no other gate is present.
pub target-init_idt :
    (at : ℕ) (isr irq : ℕ → ℕ) (t : Idt) (v : ℕ)
    → ((w : ℕ) → isr w < 2 ^ 64)
    → ((w : ℕ) → irq w < 2 ^ 64)
    → v < 256
    → target ((init_idt at isr irq t).idt_ent v) ≡ (
        if ltb v 32 || ((v == 128) || (v == 177))
        then some (isr v)
        else if ltb v 48
        then some (irq (v - 32))
        else none)
unfolding init_idt isr_config irq_config pic_config
target-init_idt at isr irq t v isr_lt irq_lt lt =
    let empty : IdtEntry = record {
      base_lo = 0;
      selector = 0;
      ist = 0;
      flags = 0;
      base_mid = 0;
      base_hi = 0;
      reserved = 0;
    } in
    let c0 : Idt = pic_config (record t {
      base = at;
      lim = 256 * 16 - 1;
      idt_ent = λ i. if ltb i 256 then empty else t.idt_ent i;
    }) in
    let c1 : Idt = encode_gates 32 0 isr c0 in
    let c2 : Idt = encode_gates 1 128 isr c1 in
    let c3 : Idt = encode_gates 1 177 isr c2 in
    let below : ltb v 256 ≡ true = ground (arith, lt) in
    let nothing' : target (c0.idt_ent v) ≡ none = rw below refl in
    target-encode_gates 16 32 (λ w. irq (w - 32)) c3 v (λ w. irq_lt (w - 32))
    ∙ ap (λ o. if leb 32 v && ltb v 48 then some (irq (v - 32)) else o)
        (target-encode_gates 1 177 isr c2 v isr_lt
          ∙ ap (λ o. if leb 177 v && ltb v 178 then some (isr v) else o)
              (target-encode_gates 1 128 isr c1 v isr_lt
                ∙ ap (λ o. if leb 128 v && ltb v 129 then some (isr v) else o)
                    (target-encode_gates 32 0 isr c0 v isr_lt
                      ∙ ap (λ o. if leb 0 v && ltb v 32 then some (isr v) else o) nothing')))
    ∙ elim (Bool-cases (ltb v 32)) [
      | inl low ↦ ground (arith, low)
      | inr high ↦ ground (arith, high)
    ]
