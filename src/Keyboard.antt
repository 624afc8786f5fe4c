-- ===== src/Keyboard.antt =====
-- The keyboard driver, kernel/drivers/kb.c: the ring of typed characters and the decoding of scan
-- codes.
--
-- The array `kbuf` is a list, and a character is its byte. The calls of the handler into the shell
-- are its answer, an `Action`.
pub mod Ring
mod Tests
use toast_os.Prelude.{
  ℕ, ◌+◌, ◌-◌, ◌<◌, Bool, true, false, List, [], ◌∷◌, Option, none, some, ltb, leb, ◌==◌,
  if◌then◌else◌, u32, sub32, not, ◌&&◌, ◌||◌, bit_and, get_or, set,
}

abbrev pub kb_buf_size : ℕ
kb_buf_size = 256

pub record Kb : Type 0 where
  pub kbuf : List ℕ
  pub kbuf_head : ℕ
  pub kbuf_tail : ℕ
  pub caps_on : Bool
  pub ctrl : Bool
  pub shift : Bool
  pub extended : Bool

unfoldable pub kb_enqueue : Kb → ℕ → Kb
kb_enqueue kb c = if leb kb_buf_size (sub32 kb.kbuf_head kb.kbuf_tail) then kb else record kb {
  kbuf = set kb.kbuf (bit_and kb.kbuf_head (kb_buf_size - 1)) c;
  kbuf_head = u32 (kb.kbuf_head + 1);
}

unfoldable pub kb_haschar : Kb → Bool
kb_haschar kb = not (kb.kbuf_head == kb.kbuf_tail)

-- `none` while there is no character, when the code halts for the next interrupt.
unfoldable pub kb_getchar : Kb → Option (ℕ × Kb)
unfolding kb_haschar
kb_getchar kb =
    if kb_haschar kb
    then some (
      get_or kb.kbuf (bit_and kb.kbuf_tail (kb_buf_size - 1)) 0,
      record kb { kbuf_tail = u32 (kb.kbuf_tail + 1) },
    )
    else none

-- `def_layout`; the codes past the initialisers are 0.
abbrev pub lower : List ℕ
lower =
    0 ∷ 27 ∷ 49 ∷ 50 ∷ 51 ∷ 52 ∷ 53 ∷ 54 ∷ 55 ∷ 56 ∷ 57 ∷ 48 ∷ 45 ∷ 61 ∷ 8 ∷ 9 ∷ 113 ∷ 119 ∷ 101
    ∷ 114 ∷ 116 ∷ 121 ∷ 117 ∷ 105 ∷ 111 ∷ 112 ∷ 91 ∷ 93 ∷ 10 ∷ 0 ∷ 97 ∷ 115 ∷ 100 ∷ 102 ∷ 103 ∷ 104
    ∷ 106 ∷ 107 ∷ 108 ∷ 59 ∷ 39 ∷ 96 ∷ 0 ∷ 92 ∷ 122 ∷ 120 ∷ 99 ∷ 118 ∷ 98 ∷ 110 ∷ 109 ∷ 44 ∷ 46 ∷ 47
    ∷ 0 ∷ 42 ∷ 0 ∷ 32 ∷ []

abbrev pub upper : List ℕ
upper =
    0 ∷ 27 ∷ 33 ∷ 64 ∷ 35 ∷ 36 ∷ 37 ∷ 94 ∷ 38 ∷ 42 ∷ 40 ∷ 41 ∷ 95 ∷ 43 ∷ 8 ∷ 9 ∷ 81 ∷ 87 ∷ 69 ∷ 82
    ∷ 84 ∷ 89 ∷ 85 ∷ 73 ∷ 79 ∷ 80 ∷ 123 ∷ 125 ∷ 10 ∷ 0 ∷ 65 ∷ 83 ∷ 68 ∷ 70 ∷ 71 ∷ 72 ∷ 74 ∷ 75 ∷ 76
    ∷ 58 ∷ 34 ∷ 126 ∷ 0 ∷ 124 ∷ 90 ∷ 88 ∷ 67 ∷ 86 ∷ 66 ∷ 78 ∷ 77 ∷ 60 ∷ 62 ∷ 63 ∷ 0 ∷ 42 ∷ 0 ∷ 32
    ∷ []

pub data Action : Type 0 where
  no_action get_prev_cmd get_next_cmd shell_clear : Action

-- `shift ^ caps_on`
abbrev pub upper_case : Kb → Bool
upper_case kb = if kb.shift then not kb.caps_on else kb.caps_on

unfoldable pub kb_handler : Kb → (scancode : ℕ) → Action × Kb
unfolding kb_enqueue
kb_handler kb scancode =
    let released = leb 128 scancode in
    let plain = get_or lower scancode 0 in
    let c = if upper_case kb then get_or upper scancode 0 else plain in
    let on = record kb { extended = false } in
    let arrow =
      if scancode == 72 then get_prev_cmd else if scancode == 80 then get_next_cmd else no_action in
    if scancode == 224
    then (no_action, record kb { extended = true })
    else if kb.extended
    then (arrow, on)
    else if (scancode == 42) || (scancode == 54)
    then (no_action, record kb { shift = true })
    else if scancode == 58
    then (no_action, record kb { caps_on = not kb.caps_on })
    else if released && ((scancode == 170) || (scancode == 182))
    then (no_action, record kb { shift = false })
    else if scancode == 29
    then (no_action, record kb { ctrl = true })
    else if released && (scancode == 157)
    then (no_action, record kb { ctrl = false })
    else if not released && ltb scancode 128
    then (if kb.ctrl
        then (if plain == 108 then shell_clear else no_action, kb)
        else (no_action, if not (c == 0) then kb_enqueue kb c else kb))
    else (no_action, kb)

unfoldable pub init_kb : Kb → Kb
init_kb kb = record kb { caps_on = false; shift = false; ctrl = false }
