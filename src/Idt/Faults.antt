-- ===== src/Idt/Faults.antt =====
-- What becomes of an exception.
use toast_os.Prelude.{◌%◌, Bool, ◌==◌, not, ◌&&◌}
use toast_os.Tasks.State.{Kernel}
use toast_os.Idt.{SystemState, Outcome.panic, Outcome.killed}

-- What `from_user` finds: the code segment has the privilege level 3, and a user task runs.
abbrev pub in_ring3 : Kernel → SystemState → Bool
in_ring3 k sys = (sys.cs % 4 == 3) && (not (k.current_task == 0) && (k.tcb k.current_task).is_user)
