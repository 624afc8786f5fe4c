-- ===== src/Syscall.antt =====
-- The system calls, kernel/syscalls/syscall.c.
--
-- `mem` is the memory as the calling task sees it, `tmp` what kmalloc returns; the output is the
-- bytes that printf prints, and `none` is a printf that finds no argument.
mod Tests
pub mod Write
use toast_os.Prelude.{
  ℕ, zero, suc, ◌+◌, ◌-◌, ◌*◌, ◌^◌, Bool, true, false, Option, none, some, List, [], ◌∷◌, ◌++◌,
  ◌==◌, if◌then◌else◌, ltb, min, not, ◌||◌, ◌&&◌, u64, ◌>>=◌,
}
use toast_os.Stdio.{printf, Arg, Arg.word, Arg.text}
use toast_os.Shell
use toast_os.Vmm.{Vmm}
use toast_os.Vmm.Users.{vmm_user_range_ok}
use toast_os.Tasks.State.{Kernel}
use toast_os.Tasks.Sched.{yield_cpu, nano_sleep}
use toast_os.Tasks.Life.{terminate_task}

abbrev pub err : ℕ
err = 2 ^ 64 - 1

abbrev pub write_buff_size : ℕ
write_buff_size = 128

-- `n` bytes from `p` on.
abbrev pub user_bytes : (ℕ → ℕ) → (p n : ℕ) → List ℕ
user_bytes mem p zero = []
user_bytes mem p (suc n) = mem p ∷ user_bytes mem (p + 1) n

-- The loop of `sys_write`, `rounds` at most: `done` at its end, and what has been printed.
unfoldable pub write_loop : (rounds : ℕ) → (ℕ → ℕ) → (buf len done : ℕ) → Option (ℕ × List ℕ)
unfolding printf
write_loop zero mem buf len done = some (done, [])
write_loop (suc rounds) mem buf len done =
    let n = min (len - done) (write_buff_size - 1) in
    let tmp = user_bytes mem (buf + done) n ++ 0 ∷ [] in
    let rest = write_loop rounds mem buf len (done + n) in
    if not (ltb done len) then some (done, []) else do
      shown ← printf (37 ∷ 115 ∷ []) (text (Shell.text tmp) ∷ [])
      (total, out) ← rest
      some (total, shown ++ out)

-- `len` rounds are enough, since each writes a byte or more.
unfoldable pub sys_write : (ℕ → ℕ) → Vmm → (vmm_ctx tmp fd buf len : ℕ) → Option (ℕ × List ℕ)
unfolding write_loop
sys_write mem k vmm_ctx tmp fd buf len =
    if not (fd == 1) && not (fd == 2)
    then some (err, [])
    else if not (vmm_user_range_ok k vmm_ctx buf len false)
    then some (err, [])
    else if tmp == 0
    then some (err, [])
    else write_loop len mem buf len 0

pub sys_getpid : Kernel → ℕ
sys_getpid k = (k.tcb k.current_task).pid

-- What a system call leaves: the value it returns, none where it does not return; the output; and
-- the kernel.
pub record Return : Type 0 where
  pub value : Option ℕ
  pub output : Option (List ℕ)
  pub kernel : Kernel

-- `[pid %d exited with code %d]\n`, of the `int` values.
abbrev pub exit_message : (pid code : ℕ) → Option (List ℕ)
exit_message pid code =
    printf
      (91 ∷ 112 ∷ 105 ∷ 100 ∷ 32 ∷ 37 ∷ 100 ∷ 32 ∷ 101 ∷ 120 ∷ 105 ∷ 116 ∷ 101 ∷ 100 ∷ 32 ∷ 119
        ∷ 105 ∷ 116 ∷ 104 ∷ 32 ∷ 99 ∷ 111 ∷ 100 ∷ 101 ∷ 32 ∷ 37 ∷ 100 ∷ 93 ∷ 10 ∷ [])
      (word pid ∷ word code ∷ [])

-- `unknown syscall %d\n`
abbrev pub unknown_message : ℕ → Option (List ℕ)
unknown_message num =
    printf
      (117 ∷ 110 ∷ 107 ∷ 110 ∷ 111 ∷ 119 ∷ 110 ∷ 32 ∷ 115 ∷ 121 ∷ 115 ∷ 99 ∷ 97 ∷ 108 ∷ 108 ∷ 32
        ∷ 37 ∷ 100 ∷ 10 ∷ [])
      (word num ∷ [])

abbrev pub write_return : Kernel → Option (ℕ × List ℕ) → Return
write_return k none = record { value = none; output = none; kernel = k }
write_return k (some (n, out)) = record { value = some n; output = some out; kernel = k }

abbrev pub silent : ℕ → Kernel → Return
silent n k = record { value = some n; output = some []; kernel = k }

module _ (idle : Kernel → Kernel) (bound : ℕ) where
  -- The task does not run on after `terminate_task`.
  unfoldable pub sys_exit : Kernel → (code : ℕ) → Return
  sys_exit k code = record {
    value = none;
    output = exit_message (sys_getpid k) code;
    kernel = terminate_task idle k;
  }

  unfoldable pub sys_yield : Kernel → Return
  sys_yield k = silent 0 (yield_cpu idle k)

  unfoldable pub sys_sleep : Kernel → (milliseconds : ℕ) → Return
  sys_sleep k milliseconds = silent 0 (nano_sleep idle bound k (u64 (milliseconds * 1000000)))

  -- `syscall_table` has the numbers 0 to 4.
  unfoldable pub syscall_handler : (ℕ → ℕ) → Vmm → (tmp : ℕ) → Kernel → (num a1 a2 a3 : ℕ) → Return
  unfolding sys_exit sys_yield sys_sleep sys_write
  syscall_handler mem v tmp k num a1 a2 a3 =
      if num == 0
      then write_return k (sys_write mem v (k.tcb k.current_task).vmm_ctx tmp a1 a2 a3)
      else if num == 1
      then sys_exit k a1
      else if num == 2
      then silent (sys_getpid k) k
      else if num == 3
      then sys_yield k
      else if num == 4
      then sys_sleep k a1
      else record { value = some err; output = unknown_message num; kernel = k }
