-- ===== src/Printk.antt =====
-- src/printk.c: formatted output on the screen.
pub mod Laws
pub mod Plain
mod Examples
use evos.Base.{
  ℕ, Bool, true, false, List, [], ◌∷◌, Result, ok, fault, ◌>>=◌, ltb, ◌==◌, if◌then◌else◌, length,
}
use evos.Monitor.{Monitor, write, write_status}
use evos.Str.Vsprintf.{Arg, vsprintf}

-- What `monitor_write` reads of a buffer: the bytes before the first zero.
abbrev pub c_string : List ℕ → List ℕ
c_string [] = []
c_string (c ∷ bytes) = if c == 0 then [] else c ∷ c_string bytes

-- `printk`, with its result; more than the 4096 bytes of its buffer are a fault.
unfoldable pub printk : List ℕ → List Arg → Monitor → Result (ℕ × Monitor)
printk fmt args m = do
  (bytes, length_written) ← vsprintf fmt args
  let num_written : ℕ = 0
  if ltb 4096 (length bytes)
      then fault
      else (do next ← write m (c_string bytes); ok (num_written, next))

-- "DONE" and "FAIL"
unfoldable pub report_success : Monitor → Result Monitor
report_success m = write_status m (68 ∷ 79 ∷ 78 ∷ 69 ∷ []) true

unfoldable pub report_fail : Monitor → Result Monitor
report_fail m = write_status m (70 ∷ 65 ∷ 73 ∷ 76 ∷ []) false
