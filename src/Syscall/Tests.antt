-- ===== src/Syscall/Tests.antt =====
-- The theorems on kernel/syscalls/syscall.c at a task with one page.
use toast_os.Prelude.{
  ℕ, ◌+◌, none, ap, ◌≡◌, ◌≢◌, ◌<◌, true, false, Option, some, List, [], ◌∷◌, arith, ◌==◌, ◌&&◌,
  if◌then◌else◌,
}
use toast_os.Pmm.{Pmm}
use toast_os.Vmm.{Vmm, user_space_end}
use toast_os.Vmm.Users.{vmm_user_range_ok}
use toast_os.Vmm.Translate.{view}
use toast_os.Vmm.Ranges.{Granted}
use toast_os.Syscall.{err, sys_write}
use toast_os.Syscall.Write.{sys_write_lem, sys_write-Granted}

abbrev no_frames : Pmm
no_frames = record {
  hhdm_base = 0;
  kernel_phys_base = 0;
  kernel_virt_base = 0;
  kernel_phys_end = 0;
  bitmap_phys = 4096;
  bitmap_bytes = 1;
  alloc_start_frame = 2;
  max_frames = 8;
  free_frames = 0;
  b_map = 255 ∷ [];
}

-- Page 5 of the context at 64 is the frame at 0x8000.
abbrev entries : ℕ → ℕ → ℕ
entries p i =
    if (p == 4096) && (i == 0)
    then 8192 + 7
    else if (p == 8192) && (i == 0)
    then 12288 + 7
    else if (p == 12288) && (i == 0)
    then 16384 + 7
    else if (p == 16384) && (i == 5)
    then 0x8000 + 5
    else 0

abbrev task_space : Vmm
task_space = record {
  pmm = no_frames;
  ram = entries;
  contexts = λ c. 4096;
  kernel_ctx = 32;
  nx_enabled = true;
  cr3 = 4096;
  freed = [];
}

-- The bytes there are all `A`.
sys_write_lem_example :
    sys_write (λ p. 65) task_space 64 256 1 0x5100 3 ≡ some (3, 65 ∷ 65 ∷ 65 ∷ [])
unfolding vmm_user_range_ok
sys_write_lem_example =
    sys_write_lem (λ p. 65) task_space 64 256 1 0x5100 3 (λ i lt e. omega (arith, e))

abbrev answer : Option (ℕ × List ℕ) → ℕ
answer none = 0
answer (some (n, out)) = n

prints : sys_write (λ p. 65) task_space 64 256 1 0x5100 3 ≢ some (err, [])
unfolding vmm_user_range_ok
prints e =
    let three : answer (sys_write (λ p. 65) task_space 64 256 1 0x5100 3) ≡ 3 =
      ap answer
        (sys_write_lem (λ p. 65) task_space 64 256 1 0x5100 3 (λ i lt z. omega (arith, z))) in
    omega (arith, three, ap answer e)

sys_write-Granted_example : (0x5101 < user_space_end) × Granted (view task_space 64 0x5101) false
sys_write-Granted_example =
    sys_write-Granted (λ p. 65) task_space 64 256 1 0x5100 3 0x5101 prints (omega arith)
      (omega arith)
