-- ===== src/Usermode.antt =====
-- src/usermode/: printf and write of a user program, which reach the kernel through a system call.
-- `memory` is the mapped memory of the program, and `regs` are its registers.
pub mod Laws
mod Examples
use evos.Base.{
  ℕ, ◌+◌, ◌-◌, ◌&&◌, leb, ltb, u32, sub32, some, if◌then◌else◌, List, length, get_or, Result, ok,
  fault, ◌>>=◌,
}
use evos.Monitor.{Monitor}
use evos.Registers.{Registers}
use evos.Str.Vsprintf.{Arg, vsprintf}
use evos.Syscall.{Mapped, syscall_handler}

-- The interrupt 0x80 with the call 1 and its two arguments; `ret` is what it leaves in eax.
unfoldable pub user_write : Mapped → Registers → ℕ → ℕ → Monitor → Result (ℕ × Monitor)
user_write memory regs data_ptr count m = do
  (regs', next) ← syscall_handler memory (record regs { eax = 1; ebx = data_ptr; ecx = count }) m
  ok (regs'.eax, next)

-- Memory with a list of bytes from an address on, round at 2 ^ 32.
unfoldable pub with_bytes : Mapped → ℕ → List ℕ → Mapped
with_bytes memory a bytes q =
    let i = sub32 q (u32 a) in if ltb i (length bytes) then some (get_or bytes i 0) else memory q

-- `printf` with its buffer at `buf`; more than the 4096 bytes of the buffer are a fault.
unfoldable pub printf : Mapped → Registers → ℕ → List ℕ → List Arg → Monitor → Result (ℕ × Monitor)
printf memory regs buf fmt args m = do
  (bytes, length_written) ← vsprintf fmt args
  if ltb 4096 (length bytes)
      then fault
      else user_write (with_bytes memory buf bytes) regs buf length_written m
