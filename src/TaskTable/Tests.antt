-- ===== src/TaskTable/Tests.antt =====
-- The theorems on kernel/multitasking/taskTable.c at a table of two slots.
use toast_os.Prelude.{refl, true, [], ◌∷◌, arith}
use toast_os.Irq
use toast_os.TaskTable.{Table}
use toast_os.TaskTable.Laws.{IsValid}

abbrev small_table : Table
small_table = record { slots = 640 ∷ 0 ∷ []; cap = 2 }

small_table-IsValid : IsValid small_table
small_table-IsValid = record { sized = refl; nonempty = omega arith; fits = omega arith }

abbrev open_irq : Irq.Irq
open_irq = record { disable_counter = 0; enabled = true }

open_irq-IsValid : Irq.IsValid open_irq
open_irq-IsValid = record { bounded = omega arith; off_inside = refl }
