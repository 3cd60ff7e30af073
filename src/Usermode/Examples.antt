-- ===== src/Usermode/Examples.antt =====
-- printf("a%c\n", 'b') in a user program.
use evos.Base.{none, ◌≡◌, refl, List, [], ◌∷◌, ok, arith, replicate, length-replicate}
use evos.Monitor.{Monitor, blank, write}
use evos.Monitor.Laws.{IsValid}
use evos.Registers.{zero_registers}
use evos.Str.Vsprintf.{number, convert}
use evos.Str.Vsprintf.Laws.{Piece, literal, field, written, meaning}
use evos.Syscall.{Mapped}
use evos.Usermode.{printf}
use evos.Usermode.Laws.{printf_lem}

-- Nothing is mapped but what printf stores.
abbrev memory : Mapped
memory a = none

abbrev screen : Monitor
screen = record { video_buffer = replicate 2000 blank; cur_x = 0; cur_y = 3; outs = [] }

screen-IsValid : IsValid screen
unfolding IsValid
screen-IsValid = (length-replicate 2000 blank, omega arith, omega arith)

abbrev pieces : List Piece
pieces = literal 97 ∷ field [] [] 99 ∷ literal 10 ∷ []

prints : meaning pieces (number 98 ∷ []) [] ≡ ok (97 ∷ 98 ∷ 10 ∷ [])
unfolding convert
prints = refl

printf_lem_example :
    (next : Monitor) × (printf memory zero_registers 0x40000000
        (written pieces)
        (number 98 ∷ [])
        screen
      ≡ ok (4, next))
    × (write screen (97 ∷ 98 ∷ 10 ∷ []) ≡ ok next)
    × IsValid next
printf_lem_example =
    printf_lem memory zero_registers 0x40000000 pieces (number 98 ∷ []) screen (97 ∷ 98 ∷ 10 ∷ [])
      screen-IsValid (ground arith) prints (ground arith) (ground arith) (omega arith)
