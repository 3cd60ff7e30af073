-- ===== src/Printk/Examples.antt =====
-- A line on an empty screen.
use evos.Base.{◌≡◌, refl, List, [], ◌∷◌, All, ok, arith, replicate, length-replicate}
use evos.Monitor.{Monitor, blank, write}
use evos.Monitor.Laws.{IsValid}
use evos.Str.Vsprintf.{text, convert, convert_text}
use evos.Str.{strlen}
use evos.Str.Vsprintf.Laws.{Piece, literal, field, IsPiece}
use evos.Printk.{printk}
use evos.Printk.Laws.{printk_lem}

abbrev screen : Monitor
screen = record { video_buffer = replicate 2000 blank; cur_x = 0; cur_y = 3; outs = [] }

screen-IsValid : IsValid screen
unfolding IsValid
screen-IsValid = (length-replicate 2000 blank, omega arith, omega arith)

-- "[%s]"
abbrev format : List Piece
format = literal 91 ∷ field [] [] 115 ∷ literal 93 ∷ []

format-IsPiece : All IsPiece format
format-IsPiece =
    (λ e. omega arith, ((tt, tt, refl, omega arith, refl, refl), (λ e. omega arith, tt)))

printk_lem_example :
    (next : Monitor) × (printk (91 ∷ 37 ∷ 115 ∷ 93 ∷ []) (text (72 ∷ 105 ∷ []) ∷ []) screen
      ≡ ok (0, next))
    × (write screen (91 ∷ 72 ∷ 105 ∷ 93 ∷ []) ≡ ok next)
    × IsValid next
unfolding convert convert_text strlen
printk_lem_example =
    printk_lem format (text (72 ∷ 105 ∷ []) ∷ []) screen (91 ∷ 72 ∷ 105 ∷ 93 ∷ []) screen-IsValid
      format-IsPiece refl
      (λ e. omega arith, (λ e. omega arith, (λ e. omega arith, (λ e. omega arith, tt))))
      (omega arith)
