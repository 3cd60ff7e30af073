-- ===== src/Syscall/Examples.antt =====
-- A call that writes five bytes, one of them zero.
use evos.Base.{
  ℕ, ◌-◌, ◌%◌, ◌≤◌, ◌<◌, ◌≡◌, refl, none, some, List, [], ◌∷◌, ok, panic, arith, replicate,
  length-replicate, get_or, minus_one, ◌&&◌, leb, ltb, if◌then◌else◌, Bool-cases, inl, inr,
}
use evos.Monitor.{Monitor, blank, write}
use evos.Monitor.Laws.{IsValid}
use evos.Registers.{Registers, zero_registers}
use evos.Syscall.{Mapped, syscall_handler, null_text, invalid_text}
use evos.Syscall.Laws.{bytes_from, nonzero_bytes, syscall_handler_lem}

abbrev screen : Monitor
screen = record { video_buffer = replicate 2000 blank; cur_x = 0; cur_y = 3; outs = [] }

screen-IsValid : IsValid screen
unfolding IsValid
screen-IsValid = (length-replicate 2000 blank, omega arith, omega arith)

-- "ab", a zero, "c" and a new line up to the last address, and nothing but these is mapped.
abbrev memory : Mapped
memory a =
    if leb 0xFFFFFFFB a && ltb a 0x100000000
    then some (get_or (97 ∷ 98 ∷ 0 ∷ 99 ∷ 10 ∷ []) (a - 0xFFFFFFFB) 0 % 256)
    else none

memory_lt : (a b : ℕ) → memory a ≡ some b → b < 256
memory_lt a b e = elim (Bool-cases (leb 0xFFFFFFFB a && ltb a 0x100000000)) [
  | inl here ↦
      let is : some (get_or (97 ∷ 98 ∷ 0 ∷ 99 ∷ 10 ∷ []) (a - 0xFFFFFFFB) 0 % 256) ≡ some b =
        rw here at e in
      let byte : get_or (97 ∷ 98 ∷ 0 ∷ 99 ∷ 10 ∷ []) (a - 0xFFFFFFFB) 0 % 256 ≡ b = cc in
      omega arith
  | inr gone ↦ let is : none ≡ some b = rw gone at e in absurd cc
]

abbrev regs : Registers
regs = record zero_registers { eax = 1; ebx = 0xFFFFFFFB; ecx = 5 }

syscall_handler_lem_example :
    (2 ≤ regs.eax
      → (next : Monitor) × IsValid next
        × (syscall_handler memory regs screen ≡ ok (record regs { eax = minus_one }, next))
        × (write screen invalid_text ≡ ok next))
    × (regs.eax ≡ 0
        → (next : Monitor) × IsValid next
          × (syscall_handler memory regs screen ≡ ok (record regs { eax = minus_one }, next))
          × (write screen null_text ≡ ok next))
    × (regs.eax ≡ 1
        → bytes_from memory 0xFFFFFFFB 5 ≡ none
        → syscall_handler memory regs screen ≡ panic)
    × (regs.eax ≡ 1
        → (bytes : List ℕ) → bytes_from memory 0xFFFFFFFB 5 ≡ some bytes
        → (next : Monitor) × IsValid next
          × (syscall_handler memory regs screen ≡ ok (record regs { eax = 5 }, next))
          × (write screen (nonzero_bytes bytes) ≡ ok next))
syscall_handler_lem_example = syscall_handler_lem memory regs screen memory_lt screen-IsValid

bytes_run : bytes_from memory 0xFFFFFFFB 5 ≡ some (97 ∷ 98 ∷ 0 ∷ 99 ∷ 10 ∷ [])
bytes_run = refl

shown_run : nonzero_bytes (97 ∷ 98 ∷ 0 ∷ 99 ∷ 10 ∷ []) ≡ 97 ∷ 98 ∷ 99 ∷ 10 ∷ []
shown_run = refl

-- One byte more is at address 0.
unmapped_run : bytes_from memory 0xFFFFFFFB 6 ≡ none
unmapped_run = refl
