-- ===== src/Serial.antt =====
-- The serial port, kernel/serial.c: its configuration, reading and writing by polling the line
-- status, and the debug output of the kernel.
--
-- The port is an argument, the byte that each read of the line status gives. What the code does to
-- the port is a list of events. A wait has as many rounds as an argument says; Serial.Writes has
-- enough.
pub mod Writes
pub mod Hex
mod Tests
use toast_os.Prelude.{
  ℕ, zero, suc, ◌+◌, ◌-◌, ◌*◌, ◌/◌, ◌%◌, ◌^◌, Bool, true, false, Option, none, some, List, [], ◌∷◌,
  ◌++◌, ◌==◌, if◌then◌else◌, ltb, not, bit_and, ◌>>=◌, codes,
}

abbrev pub serial_com1_start : ℕ
serial_com1_start = 0x3F8

abbrev pub serial_line_enable_dlab : ℕ
serial_line_enable_dlab = 0x80

-- A byte written to a port, and a read of the line status.
pub data Event : Type 0 where
  out : (to value : ℕ) → Event
  status : (value : ℕ) → Event

unfoldable pub serial_config_brate : (port div : ℕ) → List Event
serial_config_brate port div =
    out (port + 3) serial_line_enable_dlab
    ∷ out port (bit_and (div / 2 ^ 8) 0x00FF)
    ∷ out port (bit_and div 0x00FF)
    ∷ []

abbrev pub serial_config_line : (port : ℕ) → List Event
serial_config_line port = out (port + 3) 0x03 ∷ []

abbrev pub serial_config_buff : (port : ℕ) → List Event
serial_config_buff port = out (port + 2) 0xC7 ∷ []

abbrev pub serial_config_modem : (port : ℕ) → List Event
serial_config_modem port = out (port + 4) 0x03 ∷ []

unfoldable pub serial_init : (port : ℕ) → List Event
unfolding serial_config_brate
serial_init port =
    out (port + 1) 0x00 ∷ serial_config_brate port 2
    ++ (serial_config_line port ++ (serial_config_buff port ++ serial_config_modem port))

-- What the count-th read of the line status gives.
abbrev pub Line : Type 0
Line = (count : ℕ) → ℕ

abbrev pub serial_is_transmit_empty : (value : ℕ) → ℕ
serial_is_transmit_empty value = bit_and value 0x20

abbrev pub serial_received : (value : ℕ) → ℕ
serial_received value = bit_and value 1

-- `while (test(port) == 0);`: the reads, and the number of the next.
pub poll : (test : ℕ → ℕ) → Line → (rounds count : ℕ) → Option (List Event × ℕ)
poll test line zero n = none
poll test line (suc f) n =
    let again = (do (reads, m) ← poll test line f (n + 1); some (status (line n) ∷ reads, m)) in
    if test (line n) == 0 then again else some (status (line n) ∷ [], n + 1)

-- The last part of `serial_read`: the number of the read after which the byte is taken.
unfoldable pub serial_read : Line → (waits count : ℕ) → (taken : ℕ → ℕ) → Option (ℕ × ℕ)
unfolding poll
serial_read line waits n taken = do (_, m) ← poll serial_received line waits n; some (taken m, m)

-- One call after another, with their events in order.
abbrev pub in_turn :
    Option (List Event × ℕ) → (ℕ → Option (List Event × ℕ)) → Option (List Event × ℕ)
in_turn first next = do (es, m) ← first; (rest, k) ← next m; some (es ++ rest, k)

-- `outb(port, c)`, which needs no reads.
abbrev pub out_byte : (to c count : ℕ) → Option (List Event × ℕ)
out_byte to c n = some (out to c ∷ [], n)

unfoldable pub serial_write :
    Line → (waits port : ℕ) → (a : List ℕ) → (count : ℕ) → Option (List Event × ℕ)
serial_write line waits port [] n = some ([], n)
serial_write line waits port (c ∷ cs) n =
    in_turn (in_turn (poll serial_is_transmit_empty line waits n) (out_byte port c))
      (serial_write line waits port cs)

unfoldable pub debug_print :
    Line → (waits : ℕ) → (a : List ℕ) → (count : ℕ) → Option (List Event × ℕ)
unfolding serial_write poll
debug_print line waits a n =
    in_turn (serial_write line waits serial_com1_start (codes "[DEBUG]:") n) (λ m.
      in_turn (serial_write line waits serial_com1_start a m)
        (serial_write line waits serial_com1_start (10 ∷ [])))

-- `hex_chars`
abbrev pub hex_char : ℕ → ℕ
hex_char d = if ltb d 10 then 48 + d else 55 + d

-- The loop of `debug_print_hex` for the places below `i`, in front of those that are filled.
unfoldable pub hex_places : (i val : ℕ) → (filled : List ℕ) → List ℕ
hex_places zero val filled = filled
hex_places (suc i) val filled = hex_places i (val / 2 ^ 4) (hex_char (bit_and val 0xF) ∷ filled)

unfoldable pub debug_print_hex :
    Line → (waits : ℕ) → (prefix : List ℕ) → (val count : ℕ) → Option (List Event × ℕ)
unfolding hex_places debug_print
debug_print_hex line waits prefix val n =
    in_turn (debug_print line waits prefix n)
      (debug_print line waits (48 ∷ 120 ∷ hex_places 16 val []))
