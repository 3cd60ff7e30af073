-- ===== src/Syscall.antt =====
-- src/syscall.c: the system calls. `memory` holds the bytes that a caller points to; where no page is
-- mapped it holds none, and to read there is a page fault, after which the kernel has panicked.
pub mod Laws
mod Examples
use evos.Base.{
  ℕ, zero, suc, ◌+◌, ◌^◌, List, [], ◌∷◌, Option, none, some, Result, ok, panic, u32, ◌>>=◌, ◌==◌,
  leb, if◌then◌else◌, minus_one,
}
use evos.Monitor.{Monitor}
use evos.Str.{int_of_char}
use evos.Str.Vsprintf.{number}
use evos.Printk.{printk}
use evos.Registers.{Registers}

-- The bytes at the mapped addresses.
abbrev pub Mapped : Type 0
Mapped = ℕ → Option ℕ

-- A byte that is loaded, if the page fault does not end in a panic.
abbrev pub load : Option ℕ → Result ℕ
load none = panic
load (some b) = ok b

-- The loop of `tty_write`, with a number of rounds left; it prints with "%c".
unfoldable pub tty_write_loop : Mapped → ℕ → ℕ → ℕ → Monitor → Result Monitor
tty_write_loop memory data_ptr zero i m = ok m
tty_write_loop memory data_ptr (suc rounds) i m = do
  byte ← load (memory (u32 (data_ptr + i)))
  (written, next) ← printk (37 ∷ 99 ∷ []) (number (int_of_char byte) ∷ []) m
  tty_write_loop memory data_ptr rounds (i + 1) next

unfoldable pub tty_write : Mapped → ℕ → ℕ → Monitor → Result (ℕ × Monitor)
tty_write memory data_ptr count m = do
  next ← tty_write_loop memory data_ptr count 0 m
  ok (count, next)

-- "Null syscall" and "Invalid syscall! Returning.", each with a new line
abbrev pub null_text : List ℕ
null_text = 78 ∷ 117 ∷ 108 ∷ 108 ∷ 32 ∷ 115 ∷ 121 ∷ 115 ∷ 99 ∷ 97 ∷ 108 ∷ 108 ∷ 10 ∷ []

abbrev pub invalid_text : List ℕ
invalid_text =
    73 ∷ 110 ∷ 118 ∷ 97 ∷ 108 ∷ 105 ∷ 100 ∷ 32 ∷ 115 ∷ 121 ∷ 115 ∷ 99 ∷ 97 ∷ 108 ∷ 108 ∷ 33 ∷ 32
    ∷ 82 ∷ 101 ∷ 116 ∷ 117 ∷ 114 ∷ 110 ∷ 105 ∷ 110 ∷ 103 ∷ 46 ∷ 10 ∷ []

unfoldable pub null_syscall : Monitor → Result (ℕ × Monitor)
null_syscall m = do (written, next) ← printk null_text [] m; ok (minus_one, next)

abbrev pub num_syscalls : ℕ
num_syscalls = 2

-- The call of `syscalls[regs->eax]` with the registers as arguments.
unfoldable pub call_syscall : Mapped → Registers → Monitor → Result (ℕ × Monitor)
call_syscall memory regs m =
    if regs.eax == 0 then null_syscall m else tty_write memory regs.ebx regs.ecx m

unfoldable pub syscall_handler : Mapped → Registers → Monitor → Result (Registers × Monitor)
syscall_handler memory regs m =
    if leb num_syscalls regs.eax
    then (do (written, next) ← printk invalid_text [] m; ok (record regs { eax = minus_one }, next))
    else (do (result, next) ← call_syscall memory regs m; ok (record regs { eax = result }, next))
