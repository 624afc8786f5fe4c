-- ===== src/Serial/Tests.antt =====
-- Runs of kernel/serial.c on a line that is busy at every other read.
use toast_os.Prelude.{
  ℕ, ◌+◌, ◌%◌, ◌≡◌, refl, false, some, List, [], ◌∷◌, ◌++◌, Bool-cases, inl, inr, ◌==◌,
  if◌then◌else◌, length, codes, arith,
}
use toast_os.Serial.{
  Line, out, serial_com1_start, serial_init, serial_read, debug_print_hex, hex_places,
}
use toast_os.Serial.Writes.{Drains, Sends, to_port}
use toast_os.Serial.Hex.{read_hex, debug_print_hex_lem}

abbrev slow_line : Line
slow_line n = if n % 2 == 0 then 0 else 0x21

slow_line-Drains : Drains slow_line 2
slow_line-Drains n = elim (Bool-cases (n % 2 == 0)) [
  | inl e ↦
      let free : ((n + 1) % 2 == 0) ≡ false = ground (arith, e) in (1, omega arith, rw free refl)
  | inr e ↦
      let free : ((n + 0) % 2 == 0) ≡ false = ground (arith, e) in (0, omega arith, rw free refl)
]

debug_print_hex_lem_example :
    (digits : List ℕ) × (length digits ≡ 16)
    × (read_hex 0 digits ≡ 0xBEEF)
    × Sends (debug_print_hex slow_line 2 (codes "at") 0xBEEF 0) (
        to_port serial_com1_start (
          (codes "[DEBUG]:" ++ (codes "at" ++ 10 ∷ []))
          ++ (codes "[DEBUG]:0x" ++ (digits ++ 10 ∷ []))))
debug_print_hex_lem_example =
    debug_print_hex_lem slow_line 2 slow_line-Drains (codes "at") 0xBEEF 0 (omega arith)

digits_of_beef : hex_places 16 0xBEEF [] ≡ codes "000000000000BEEF"
unfolding hex_places
digits_of_beef = refl

-- A byte is taken at the second read.
one_byte : serial_read slow_line 2 0 (λ n. 65 + n) ≡ some (67, 2)
unfolding serial_read
one_byte = refl

com2_init :
    serial_init 0x2F8
    ≡ out 0x2F9 0
      ∷ out 0x2FB 0x80
      ∷ out 0x2F8 0
      ∷ out 0x2F8 2
      ∷ out 0x2FB 3
      ∷ out 0x2FA 0xC7
      ∷ out 0x2FC 3
      ∷ []
unfolding serial_init
com2_init = refl
