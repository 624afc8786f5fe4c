-- ===== src/Keyboard/Tests.antt =====
-- The theorems on kernel/drivers/kb.c at concrete rings.
use toast_os.Prelude.{refl, false, arith, replicate}
use toast_os.Keyboard.{Kb}
use toast_os.Keyboard.Ring.{IsValid}

-- The positions have gone round: 97 waits at the last place of the ring.
abbrev one_waits : Kb
one_waits = record {
  kbuf = replicate 256 97;
  kbuf_head = 0;
  kbuf_tail = 4294967295;
  caps_on = false;
  ctrl = false;
  shift = false;
  extended = false;
}

one_waits-IsValid : IsValid one_waits
one_waits-IsValid = record {
  sized = refl;
  head_word = omega arith;
  tail_word = omega arith;
  room = omega arith;
}
