-- ===== src/Timer.antt =====
-- src/timer.c: the interval timer.
pub mod Laws
mod Examples
use evos.Base.{
  ℕ, ◌/◌, ◌%◌, ◌^◌, List, [], ◌∷◌, Option, some, Result, ok, fault, ◌>>=◌, ◌==◌, leb, if◌then◌else◌,
}
use evos.Monitor.{Monitor}
use evos.Printk.{printk, report_success}
use evos.Idt.{Handlers, register_handler}

abbrev pub pit_clock_freq : ℕ
pit_clock_freq = 1193180

abbrev pub irq_0 : ℕ
irq_0 = 32

-- "WARN: frequency is too low", with a new line, and "Initialising timer"
abbrev pub too_low : List ℕ
too_low =
    87 ∷ 65 ∷ 82 ∷ 78 ∷ 58 ∷ 32 ∷ 102 ∷ 114 ∷ 101 ∷ 113 ∷ 117 ∷ 101 ∷ 110 ∷ 99 ∷ 121 ∷ 32 ∷ 105
    ∷ 115 ∷ 32 ∷ 116 ∷ 111 ∷ 111 ∷ 32 ∷ 108 ∷ 111 ∷ 119 ∷ 10 ∷ []

abbrev pub initialising : List ℕ
initialising =
    73 ∷ 110 ∷ 105 ∷ 116 ∷ 105 ∷ 97 ∷ 108 ∷ 105 ∷ 115 ∷ 105 ∷ 110 ∷ 103 ∷ 32 ∷ 116 ∷ 105 ∷ 109 ∷ 101
    ∷ 114 ∷ []

-- `divisor & ~0xFFFF` is not 0 from 2 ^ 16 on.
unfoldable pub limit_divisor : ℕ → Monitor → Result (ℕ × Monitor)
limit_divisor divisor m =
    if leb (2 ^ 16) divisor
    then (do (written, next) ← printk too_low [] m; ok (0xFFFF, next))
    else ok (divisor, m)

-- `init_timer`, with the bytes that go to the ports; `timer_callback` is its address. The division
-- by a frequency of 0 is a fault.
unfoldable pub init_timer : ℕ → ℕ → Handlers × Monitor → Result (List (ℕ × ℕ) × Handlers × Monitor)
init_timer timer_callback freq (handlers, m) = if freq == 0 then fault else (do
  (divisor, m1) ← limit_divisor (pit_clock_freq / freq) m
  (written, m2) ← printk initialising [] m1
  m3 ← report_success m2
  ok (
    (0x43, 0x36) ∷ (0x40, divisor % 256) ∷ (0x40, divisor / 256 % 256) ∷ [],
    register_handler handlers irq_0 (some timer_callback),
    m3,
  ))
