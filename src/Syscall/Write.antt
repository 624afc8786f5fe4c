-- ===== src/Syscall/Write.antt =====
-- What `sys_write` prints.
use toast_os.Prelude.{
  ℕ, zero, suc, ◌+◌, ◌-◌, ◌≤◌, ◌<◌, ◌≡◌, ◌≢◌, refl, ◌∙◌, ap, sym, false, some, List, [], ◌∷◌, ◌++◌,
  ◌==◌, if◌then◌else◌, ltb, min, not, ◌||◌, ◌&&◌, arith, inl, inr, Bool-cases, append-nil,
}
use toast_os.Stdio.{printf, print_spec, Arg.text}
use toast_os.Shell
use toast_os.Vmm.{Vmm, user_space_end}
use toast_os.Vmm.Translate.{view}
use toast_os.Vmm.Ranges.{Granted, vmm_user_range_ok-Granted}
use toast_os.Vmm.Users.{vmm_user_range_ok}
use toast_os.Syscall.{err, user_bytes, write_buff_size, write_loop, sys_write}

printf-text : (xs : List ℕ) → printf (37 ∷ 115 ∷ []) (text xs ∷ []) ≡ some xs
unfolding printf print_spec
printf-text xs = ap some (append-nil xs)

user_bytes-add :
    (mem : ℕ → ℕ) (p m n : ℕ)
    → user_bytes mem p (m + n) ≡ user_bytes mem p m ++ user_bytes mem (p + m) n
user_bytes-add mem p zero n =
    let none' : zero + n ≡ n = omega arith in
    ap (user_bytes mem p) none'
    ∙ sym (ap (λ q. user_bytes mem q n) {x = p + 0} {y = p} (omega arith))
user_bytes-add mem p (suc m) n =
    let up : suc m + n ≡ suc (m + n) = omega arith in
    ap (user_bytes mem p) up
    ∙ ap (λ l. mem p ∷ l)
        (user_bytes-add mem (p + 1) m n
          ∙ ap (λ q. user_bytes mem (p + 1) m ++ user_bytes mem q n) {x = p + 1 + m} {y = p + suc m}
              (omega arith))

text-user_bytes :
    (mem : ℕ → ℕ) (p n : ℕ)
    → ((i : ℕ) → i < n → mem (p + i) ≢ 0)
    → Shell.text (user_bytes mem p n ++ 0 ∷ []) ≡ user_bytes mem p n
text-user_bytes mem p zero some' = refl
text-user_bytes mem p (suc n) some' =
    let first : mem p ≢ 0 =
      λ z. some' 0 (omega arith) (ap mem {x = p + 0} {y = p} (omega arith) ∙ z) in
    let shown : (mem p == 0) ≡ false = ground (arith, first) in
    rw shown (
      ap (λ l. mem p ∷ l)
        (text-user_bytes mem (p + 1) n (λ i lt z.
          some' (suc i) (omega (arith, lt))
            (ap mem {x = p + suc i} {y = p + 1 + i} (omega arith) ∙ z))))

write_loop-user_bytes :
    (rounds : ℕ) (mem : ℕ → ℕ) (buf len done : ℕ)
    → ((i : ℕ) → i < len → mem (buf + i) ≢ 0)
    → done ≤ len
    → len ≤ done + rounds
    → write_loop rounds mem buf len done ≡ some (len, user_bytes mem (buf + done) (len - done))
unfolding write_loop
write_loop-user_bytes zero mem buf len done some' le enough =
    let all : done ≡ len = omega (arith, le, enough) in
    let none' : len - done ≡ 0 = omega (arith, all) in rw none' (ap (λ d. some (d, [])) all)
write_loop-user_bytes (suc rounds) mem buf len done some' le enough =
    elim (Bool-cases (ltb done len)) [
      | inr end ↦
          let all : done ≡ len = ground (arith, end, le) in
          let none' : len - done ≡ 0 = omega (arith, all) in
          rw (end, none') (ap (λ d. some (d, [])) all)
      | inl more ↦
          let lt : done < len = ground (arith, more) in
          let n : ℕ = min (len - done) (write_buff_size - 1) in
          let shown : Shell.text (user_bytes mem (buf + done) n ++ 0 ∷ [])
              ≡ user_bytes mem (buf + done) n =
            text-user_bytes mem (buf + done) n (λ i less z.
              some' (done + i) (omega (arith, less))
                (ap mem {x = buf + (done + i)} {y = buf + done + i} (omega arith) ∙ z)) in
          let later =
            write_loop-user_bytes rounds mem buf len (done + n) some' (omega arith)
              (omega (arith, enough, lt)) in
          let joined : user_bytes mem (buf + done) n
                ++ user_bytes mem (buf + (done + n)) (len - (done + n))
              ≡ user_bytes mem (buf + done) (len - done) =
            ap (λ q. user_bytes mem (buf + done) n ++ user_bytes mem q (len - (done + n)))
              {x = buf + (done + n)} {y = buf + done + n} (omega arith)
            ∙ sym (user_bytes-add mem (buf + done) n (len - (done + n)))
            ∙ ap (user_bytes mem (buf + done)) {x = n + (len - (done + n))} {y = len - done}
                (omega (arith, lt)) in
          rw (more, shown, printf-text (user_bytes mem (buf + done) n), later)
            (ap (λ l. some (len, l)) joined)
    ]

-- For a buffer without a NUL, sys_write on descriptor 1 or 2, with a range that vmm_user_range_ok
-- accepts and a scratch buffer from kmalloc, prints the bytes of the buffer in order, in however
-- many pieces, and answers their number; otherwise it answers ERR and prints nothing.
pub sys_write_lem :
    (mem : ℕ → ℕ) (k : Vmm) (vmm_ctx tmp fd buf len : ℕ)
    → ((i : ℕ) → i < len → mem (buf + i) ≢ 0)
    → sys_write mem k vmm_ctx tmp fd buf len ≡ (
        if ((fd == 1) || (fd == 2)) && vmm_user_range_ok k vmm_ctx buf len false && not (tmp == 0)
        then some (len, user_bytes mem buf len)
        else some (err, []))
unfolding sys_write
sys_write_lem mem k vmm_ctx tmp fd buf len some' = elim (Bool-cases ((fd == 1) || (fd == 2))) [
  | inr bad ↦
      let one : (fd == 1) ≡ false = ground (arith, bad) in
      let two : (fd == 2) ≡ false = ground (arith, bad) in rw (one, two) refl
  | inl good ↦
      let known : (not (fd == 1) && not (fd == 2)) ≡ false = ground (arith, good) in
      elim (Bool-cases (vmm_user_range_ok k vmm_ctx buf len false)) [
        | inr refused ↦ rw (good, known, refused) refl
        | inl granted ↦ elim (Bool-cases (tmp == 0)) [
          | inl null ↦ rw (good, known, granted, null) refl
          | inr given ↦
              rw (good, known, granted, given)
                (write_loop-user_bytes len mem buf len 0 some' (omega arith) (omega arith)
                  ∙ ap (λ n. some (len, user_bytes mem (buf + 0) n)) {x = len - 0} {y = len}
                      (omega arith)
                  ∙ ap (λ q. some (len, user_bytes mem q len)) {x = buf + 0} {y = buf}
                      (omega arith))
        ]
      ]
]

-- When sys_write does anything but answer ERR and print nothing, every address of the buffer is
-- below the end of the user half and translated by an entry for a page of 4 KiB with the user bit.
pub sys_write-Granted :
    (mem : ℕ → ℕ) (k : Vmm) (vmm_ctx tmp fd buf len a : ℕ)
    → sys_write mem k vmm_ctx tmp fd buf len ≢ some (err, [])
    → buf ≤ a
    → a < buf + len
    → (a < user_space_end) × Granted (view k vmm_ctx a) false
unfolding sys_write
sys_write-Granted mem k vmm_ctx tmp fd buf len a works lo hi =
    elim (Bool-cases (not (fd == 1) && not (fd == 2))) [
      | inl bad ↦ absurd (works (rw (bad, sys_write) refl))
      | inr known ↦ elim (Bool-cases (vmm_user_range_ok k vmm_ctx buf len false)) [
        | inr refused ↦ absurd (works (rw (known, refused, sys_write) refl))
        | inl granted ↦
            let (ctx, below, page) =
              vmm_user_range_ok-Granted k vmm_ctx buf len a false granted lo hi in
            (below, page)
      ]
    ]
