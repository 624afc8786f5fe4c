-- ===== src/Serial/Hex.antt =====
-- The sixteen digits of debug_print_hex in kernel/serial.c.
use toast_os.Prelude.{
  ℕ, zero, suc, ◌+◌, ◌-◌, ◌*◌, ◌/◌, ◌^◌, ◌<◌, ◌≡◌, ap, ◌∙◌, List, [], ◌∷◌, ◌++◌, if◌then◌else◌, ltb,
  bit_and, length, codes, arith,
}
use native.Mathlib.Nat.{div-lt_iff_lt-mul}
use toast_os.Prelude.Bits.{and-ones}
use toast_os.Serial.{Line, hex_char, hex_places, debug_print_hex, serial_com1_start}
use toast_os.Serial.Writes.{
  Drains, Sends, Sends-in_turn, Sends-debug_print, to_port, to_port-append,
}

-- The value of a digit, and of digits with the first the most significant.
abbrev pub hex_value : ℕ → ℕ
hex_value c = if ltb c 58 then c - 48 else c - 55

abbrev pub read_hex : ℕ → List ℕ → ℕ
read_hex acc [] = acc
read_hex acc (c ∷ cs) = read_hex (acc * 16 + hex_value c) cs

low_digit : (val : ℕ) → val / 16 * 16 + hex_value (hex_char (bit_and val 0xF)) ≡ val
low_digit val = rw (and-ones 4 val) (ground arith)

read_hex-hex_places :
    (i val : ℕ) (filled : List ℕ)
    → val < 16 ^ i
    → read_hex 0 (hex_places i val filled) ≡ read_hex val filled
unfolding hex_places
read_hex-hex_places zero val filled h = ap (λ v. read_hex v filled) (omega arith)
read_hex-hex_places (suc i) val filled h =
    read_hex-hex_places i (val / 16) (hex_char (bit_and val 0xF) ∷ filled)
      ((div-lt_iff_lt-mul {k = 16} (omega arith)).1 (omega (arith, h)))
    ∙ ap (λ v. read_hex v filled) (low_digit val)

length-hex_places :
    (i val : ℕ) (filled : List ℕ) → length (hex_places i val filled) ≡ i + length filled
unfolding hex_places
length-hex_places zero val filled = omega arith
length-hex_places (suc i) val filled =
    omega (arith, length-hex_places i (val / 16) (hex_char (bit_and val 0xF) ∷ filled))

-- On a line whose transmitter keeps draining debug_print_hex returns, and sends to COM1 the prefix
-- and then 0x with sixteen digits, each on a line of its own behind [DEBUG]:, one byte at a time
-- as there is room. The digits, read as a hexadecimal numeral, are the number.
pub debug_print_hex_lem :
    (line : Line) (waits : ℕ)
    → Drains line waits
    → (prefix : List ℕ) (val count : ℕ) → val < 2 ^ 64
    → (digits : List ℕ) × (length digits ≡ 16)
      × (read_hex 0 digits ≡ val)
      × Sends (debug_print_hex line waits prefix val count) (
          to_port serial_com1_start (
            (codes "[DEBUG]:" ++ (prefix ++ 10 ∷ []))
            ++ (codes "[DEBUG]:0x" ++ (digits ++ 10 ∷ []))))
unfolding debug_print_hex
debug_print_hex_lem line waits drains prefix val count small =
    let digits = hex_places 16 val [] in
    (
      digits,
      length-hex_places 16 val [],
      read_hex-hex_places 16 val [] small,
      rw
          (to_port-append serial_com1_start (codes "[DEBUG]:" ++ (prefix ++ 10 ∷ []))
            (codes "[DEBUG]:0x" ++ (digits ++ 10 ∷ [])))
          (Sends-in_turn _ _ _ _ (Sends-debug_print line waits drains prefix count)
            (Sends-debug_print line waits drains (48 ∷ 120 ∷ digits))),
    )
