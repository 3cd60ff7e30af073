-- ===== src/Monitor/Examples.antt =====
-- The screen at concrete inputs.
use evos.Base.{
  ℕ, ◌≤◌, ◌<◌, ◌≡◌, refl, true, List, [], ◌∷◌, All, ok, fault, arith, length-replicate, replicate,
}
use evos.Monitor.{Monitor, fb_word, blank, write, write_status}
use evos.Monitor.Laws.{IsValid, write-IsValid}
use evos.Monitor.Put.{IsPrinted}
use evos.Monitor.Status.{write_status_long}

-- An empty screen with the cursor in a column of a line.
abbrev screen : ℕ → ℕ → Monitor
screen x y = record { video_buffer = replicate 2000 blank; cur_x = x; cur_y = y; outs = [] }

screen-IsValid : (x y : ℕ) → x < 80 → y < 25 → IsValid (screen x y)
unfolding IsValid
screen-IsValid x y h k = (length-replicate 2000 blank, h, k)

letter-IsPrinted : (c : ℕ) → 32 ≤ c → IsPrinted c
letter-IsPrinted c h = (λ e. omega arith, λ e. omega arith, λ e. omega arith, λ e. omega arith)

grey_letter : fb_word 65 7 ≡ 0x741
unfolding fb_word
grey_letter = refl

write-IsValid_example :
    (next : Monitor) × (write (screen 79 24) (65 ∷ 10 ∷ 9 ∷ 8 ∷ []) ≡ ok next) × IsValid next
write-IsValid_example =
    write-IsValid (screen 79 24) (65 ∷ 10 ∷ 9 ∷ 8 ∷ [])
      (screen-IsValid 79 24 (omega arith) (omega arith))

-- "DONE"
abbrev done : List ℕ
done = 68 ∷ 79 ∷ 78 ∷ 69 ∷ []

done-IsPrinted : All IsPrinted done
done-IsPrinted = (
  letter-IsPrinted 68 (omega arith),
  (
    letter-IsPrinted 79 (omega arith),
    (letter-IsPrinted 78 (omega arith), (letter-IsPrinted 69 (omega arith), tt)),
  ),
)

write_status_long_example : write_status (screen 0 0) (replicate 79 65) true ≡ fault
write_status_long_example =
    write_status_long (screen 0 0) (replicate 79 65) true
      (screen-IsValid 0 0 (omega arith) (omega arith)) (omega arith) (omega arith)
