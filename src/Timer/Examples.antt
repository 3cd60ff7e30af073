-- ===== src/Timer/Examples.antt =====
-- The timer at 0 Hz, which divides by zero.
use evos.Base.{ℕ, [], ◌≡◌, Option, none, fault, refl, arith, replicate, length-replicate}
use evos.Monitor.{Monitor, blank}
use evos.Monitor.Laws.{IsValid}
use evos.Timer.{init_timer}
use evos.Timer.Laws.{init_timer_lem}

abbrev screen : Monitor
screen = record { video_buffer = replicate 2000 blank; cur_x = 0; cur_y = 3; outs = [] }

screen-IsValid : IsValid screen
unfolding IsValid
screen-IsValid = (length-replicate 2000 blank, omega arith, omega arith)

no_rate : init_timer 0x100200 0 (replicate 256 none, screen) ≡ fault
no_rate =
    (init_timer_lem 0x100200 0 (replicate 256 none) screen screen-IsValid
        (length-replicate {A = Option ℕ} 256 none)).0
      refl
