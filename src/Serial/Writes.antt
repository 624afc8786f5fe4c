-- ===== src/Serial/Writes.antt =====
-- What kernel/serial.c writes: the bytes of a text in their order, each once the transmitter has
-- room.
use toast_os.Prelude.{
  ℕ, zero, suc, ◌+◌, ◌<◌, ◌≡◌, refl, ap, ◌∙◌, Bool, true, false, some, Option, List, [], ◌∷◌, ◌++◌,
  map, append_assoc, ◌==◌, not, ◌&&◌, Bool-cases, inl, inr, arith, codes,
}
use toast_os.Serial.{
  Event, out, status, Line, serial_is_transmit_empty, serial_com1_start, poll, serial_write,
  debug_print, in_turn, out_byte,
}

-- One of any `waits` reads of the line status in succession says that the transmitter has room.
abbrev pub Drains : Line → (waits : ℕ) → Type 0
Drains line waits =
    (n : ℕ) → (k : ℕ) × (k < waits) × ((serial_is_transmit_empty (line (n + k)) == 0) ≡ false)

-- The bytes written, with their ports.
abbrev pub sent : List Event → List (ℕ × ℕ)
sent [] = []
sent (status v ∷ es) = sent es
sent (out to v ∷ es) = (to, v) ∷ sent es

-- Each byte comes right after a read of the line status that says that there is room.
abbrev pub paced : (room : Bool) → List Event → Bool
paced room [] = true
paced room (status v ∷ es) = paced (not (serial_is_transmit_empty v == 0)) es
paced room (out to v ∷ es) = room && paced false es

abbrev pub to_port : (to : ℕ) → List ℕ → List (ℕ × ℕ)
to_port to cs = map (λ c. (to, c)) cs

pub to_port-append : (to : ℕ) (a b : List ℕ) → to_port to (a ++ b) ≡ to_port to a ++ to_port to b
to_port-append to [] b = refl
to_port-append to (c ∷ a) b = ap (λ cs. (to, c) ∷ cs) (to_port-append to a b)

-- A run that ends, and whose events, whatever follows them, send a text and are paced.
pub record Sends (run : Option (List Event × ℕ)) (text : List (ℕ × ℕ)) : Type 0 where
  pub events : List Event
  pub next : ℕ
  pub returns : run ≡ some (events, next)
  pub sends : (rest : List Event) → sent (events ++ rest) ≡ text ++ sent rest
  pub in_time : (rest : List Event) → paced false rest ≡ true → paced false (events ++ rest) ≡ true

-- A run that ends with the transmitter ready, having sent nothing.
abbrev Polls : Option (List Event × ℕ) → Type 0
Polls run =
    (reads : List Event) × (m : ℕ) × (run ≡ some (reads, m))
    × ((rest : List Event) → sent (reads ++ rest) ≡ sent rest)
    × ((rest : List Event) → paced false (reads ++ rest) ≡ paced true rest)

Polls-poll :
    (line : Line) (f n k : ℕ)
    → k < f
    → (serial_is_transmit_empty (line (n + k)) == 0) ≡ false
    → Polls (poll serial_is_transmit_empty line f n)
unfolding poll
Polls-poll line zero n k h room = elim h [ ]
Polls-poll line (suc f) n zero h room =
    let now : (serial_is_transmit_empty (line n) == 0) ≡ false =
      ap (λ i. serial_is_transmit_empty (line i) == 0) {x = n} {y = n + 0} (omega arith) ∙ room in
    rw now (status (line n) ∷ [], n + 1, refl, (λ rest. refl), (λ rest. rw (now, paced) refl))
Polls-poll line (suc f) n (suc k) h room =
    let (reads, m, found, quiet, ready) = Polls-poll line f (n + 1) k (omega (arith, h)) (
      ap (λ i. serial_is_transmit_empty (line i) == 0) {x = n + 1 + k} {y = n + suc k} (omega arith)
      ∙ room) in
    elim (Bool-cases (serial_is_transmit_empty (line n) == 0)) [
      | inl e ↦
          rw (e, found)
            (status (line n) ∷ reads, m, refl, quiet, (λ rest. rw (e, paced) (ready rest)))
      | inr e ↦
          rw e (status (line n) ∷ [], n + 1, refl, (λ rest. refl), (λ rest. rw (e, paced) refl))
    ]

-- After a wait, one byte.
Sends-out_byte :
    (run : Option (List Event × ℕ)) (to c : ℕ)
    → Polls run
    → Sends (in_turn run (out_byte to c)) ((to, c) ∷ [])
Sends-out_byte run to c (reads, m, found, quiet, ready) = record {
  events = reads ++ out to c ∷ [];
  next = m;
  returns = rw found refl;
  sends = λ rest. rw (append_assoc reads (out to c ∷ []) rest) (quiet (out to c ∷ rest));
  in_time = λ rest h. rw (append_assoc reads (out to c ∷ []) rest) (ready (out to c ∷ rest) ∙ h);
}

-- Calls in turn send what each of them sends.
pub Sends-in_turn :
    (first : Option (List Event × ℕ)) (next : ℕ → Option (List Event × ℕ)) (xs ys : List (ℕ × ℕ))
    → Sends first xs
    → ((n : ℕ) → Sends (next n) ys)
    → Sends (in_turn first next) (xs ++ ys)
Sends-in_turn first next xs ys a then_b =
    let b = then_b a.next in
    let returns_a = a.returns in
    let returns_b = b.returns in
    record {
      events = a.events ++ b.events;
      next = b.next;
      returns = rw (returns_a, returns_b) refl;
      sends = λ rest.
          rw (append_assoc a.events b.events rest, append_assoc xs ys (sent rest))
            (a.sends (b.events ++ rest) ∙ ap (λ l. xs ++ l) (b.sends rest));
      in_time = λ rest h.
          rw (append_assoc a.events b.events rest)
            (a.in_time (b.events ++ rest) (b.in_time rest h));
    }

module _ (line : Line) (waits : ℕ) (drains : Drains line waits) where
  Sends-wait_and_out :
      (to c n : ℕ)
      → Sends (in_turn (poll serial_is_transmit_empty line waits n) (out_byte to c)) ((to, c) ∷ [])
  Sends-wait_and_out to c n =
      let (k, small, room) = drains n in
      Sends-out_byte _ to c (Polls-poll line waits n k small room)

  -- serial_write returns and sends the characters of the text in order, each when there is room.
  pub Sends-serial_write :
      (to : ℕ) (a : List ℕ) (n : ℕ) → Sends (serial_write line waits to a n) (to_port to a)
  unfolding serial_write
  Sends-serial_write to [] n = record {
    events = [];
    next = n;
    returns = refl;
    sends = λ rest. refl;
    in_time = λ rest h. h;
  }
  Sends-serial_write to (c ∷ cs) n =
      Sends-in_turn _ (serial_write line waits to cs) ((to, c) ∷ []) (to_port to cs)
        (Sends-wait_and_out to c n) (Sends-serial_write to cs)

  pub Sends-debug_print :
      (a : List ℕ) (n : ℕ)
      → Sends
          (debug_print line waits a n)
          (to_port serial_com1_start (codes "[DEBUG]:" ++ (a ++ 10 ∷ [])))
  unfolding debug_print
  Sends-debug_print a n = rw (to_port-append serial_com1_start a (10 ∷ [])) (
      Sends-in_turn _ _ (to_port serial_com1_start (codes "[DEBUG]:")) _
        (Sends-serial_write serial_com1_start (codes "[DEBUG]:") n)
        (λ m.
          Sends-in_turn _ _ _ _ (Sends-serial_write serial_com1_start a m)
            (Sends-serial_write serial_com1_start (10 ∷ []))))
