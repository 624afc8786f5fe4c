-- ===== src/Timer/Tests.antt =====
-- A wait of kernel/drivers/timer.c.
use toast_os.Prelude.{◌≡◌, true, false, some, [], ◌∷◌, arith}
use toast_os.Timer.{Timer, timer_wait_t}
use toast_os.Timer.Waits.{timer_wait_t_lem}

abbrev clock : Timer
clock = record { tick_count = 41; channel_0_hz = 100 }

timer_wait_t_lem_example :
    timer_wait_t (true ∷ false ∷ true ∷ true ∷ []) 2 clock ≡ some (record clock { tick_count = 43 })
timer_wait_t_lem_example =
    timer_wait_t_lem (true ∷ false ∷ true ∷ true ∷ []) 2 clock (omega arith) (omega arith)
