-- ===== src/Syscall/Laws.antt =====
-- What a system call shows on the screen and returns.
use evos.Base.{
  ℕ, zero, suc, ◌+◌, ◌≤◌, ◌<◌, ◌≡◌, refl, ◌∙◌, ◌⊎◌, inl, inr, Option, none, some, List, [], ◌∷◌,
  ◌++◌, All, ok, panic, true, false, arith, u8, u32, leb, ◌==◌, if◌then◌else◌, Bool-cases,
  minus_one,
}
use evos.Monitor.{Monitor, write}
use evos.Monitor.Laws.{IsValid, write-append}
use evos.Str.{int_of_char}
use evos.Printk.Plain.{shown, is_plain, is_plain-IsPlain, printk_plain, printk_char}
use evos.Registers.{Registers}
use evos.Syscall.{
  Mapped, tty_write_loop, tty_write, null_text, invalid_text, null_syscall, call_syscall,
  syscall_handler,
}

-- A byte and the bytes behind it, if they can be read.
abbrev both_read : Option ℕ → Option (List ℕ) → Option (List ℕ)
both_read none rest = none
both_read (some b) none = none
both_read (some b) (some bytes) = some (b ∷ bytes)

-- The `n` bytes from `a` on, where addresses go round at 2 ^ 32, if all of them are mapped.
abbrev pub bytes_from : Mapped → ℕ → ℕ → Option (List ℕ)
bytes_from memory a zero = some []
bytes_from memory a (suc n) = both_read (memory (u32 a)) (bytes_from memory (a + 1) n)

both_read-none :
    (o : Option ℕ) (rest : Option (List ℕ))
    → both_read o rest ≡ none
    → (o ≡ none) ⊎ ((b : ℕ) × (o ≡ some b) × (rest ≡ none))
both_read-none none rest e = inl refl
both_read-none (some b) none e = inr (b, refl, refl)
both_read-none (some b) (some bytes) e = absurd cc

both_read-some :
    (o : Option ℕ) (rest : Option (List ℕ)) (bytes : List ℕ)
    → both_read o rest ≡ some bytes
    → (b : ℕ) × (more : List ℕ) × (o ≡ some b) × (rest ≡ some more) × (bytes ≡ b ∷ more)
both_read-some none rest bytes e = absurd cc
both_read-some (some b) none bytes e = absurd cc
both_read-some (some b) (some more) bytes e = (b, more, refl, refl, cc)

-- A list of bytes without its zeros.
abbrev pub nonzero_bytes : List ℕ → List ℕ
nonzero_bytes [] = []
nonzero_bytes (b ∷ bytes) = let rest = nonzero_bytes bytes in if b == 0 then rest else b ∷ rest

shown_byte : (b : ℕ) → b < 256 → shown (int_of_char b) ≡ (if b == 0 then [] else b ∷ [])
unfolding shown
shown_byte b low = let same : u8 (int_of_char b) ≡ b = ground arith in rw same refl

first_shown :
    (b : ℕ) (bytes : List ℕ)
    → b < 256
    → nonzero_bytes (b ∷ bytes) ≡ shown (int_of_char b) ++ nonzero_bytes bytes
first_shown b bytes low =
    rw (shown_byte b low) (elim (Bool-cases (b == 0)) [ inl e ↦ rw e refl | inr e ↦ rw e refl ])

-- With an address that is not mapped among those it reads, the loop ends in a panic.
tty_write_loop_unmapped :
    (memory : Mapped) (data_ptr rounds i : ℕ) (m : Monitor)
    → IsValid m
    → bytes_from memory (data_ptr + i) rounds ≡ none
    → tty_write_loop memory data_ptr rounds i m ≡ panic
unfolding tty_write_loop
tty_write_loop_unmapped memory data_ptr zero i m v e = absurd cc
tty_write_loop_unmapped memory data_ptr (suc rounds) i m v e = elim (both_read-none _ _ e) [
  | inl gone ↦ rw gone refl
  | inr (b, here, rest) ↦
      let (one, printed, wrote, valid) = printk_char (int_of_char b) m v in
      let next : data_ptr + (i + 1) ≡ data_ptr + i + 1 = omega arith in
      rw (here, printed)
        (tty_write_loop_unmapped memory data_ptr rounds (i + 1) one valid (rw next rest))
]

pub tty_write_loop_lem :
    (memory : Mapped) (data_ptr rounds i : ℕ) (m : Monitor) (bytes : List ℕ)
    → IsValid m
    → bytes_from memory (data_ptr + i) rounds ≡ some bytes
    → All (λ b. b < 256) bytes
    → (next : Monitor) × (tty_write_loop memory data_ptr rounds i m ≡ ok next)
      × (write m (nonzero_bytes bytes) ≡ ok next)
      × IsValid next
unfolding tty_write_loop write
tty_write_loop_lem memory data_ptr zero i m bytes v e low =
    let none_left : bytes ≡ [] = cc in (m, refl, rw none_left refl, v)
tty_write_loop_lem memory data_ptr (suc rounds) i m bytes v e low =
    let (b, more, here, rest, split) = both_read-some _ _ bytes e in
    let (first_low, more_low) : All (λ b. b < 256) (b ∷ more) = rw split at low in
    let at : data_ptr + (i + 1) ≡ data_ptr + i + 1 = omega arith in
    let (one, printed, wrote, valid) = printk_char (int_of_char b) m v in
    let (next, run, all, last) =
      tty_write_loop_lem memory data_ptr rounds (i + 1) one more valid (rw at rest) more_low in
    (
      next,
      rw (here, printed) run,
      rw (split, first_shown b more first_low)
          (write-append m one (shown (int_of_char b)) (nonzero_bytes more) wrote ∙ all),
      last,
    )

bytes_from_lt :
    (memory : Mapped) (a n : ℕ) (bytes : List ℕ)
    → ((q b : ℕ) → memory q ≡ some b → b < 256)
    → bytes_from memory a n ≡ some bytes
    → All (λ b. b < 256) bytes
bytes_from_lt memory a zero bytes low e = let none_left : bytes ≡ [] = cc in rw none_left tt
bytes_from_lt memory a (suc n) bytes low e =
    let (b, more, here, rest, split) = both_read-some _ _ bytes e in
    rw split (low (u32 a) b here, bytes_from_lt memory (a + 1) n more low rest)

-- Call 1 with bytes that can be read.
pub write_call :
    (memory : Mapped) (regs : Registers) (m : Monitor) (bytes : List ℕ)
    → IsValid m
    → regs.eax ≡ 1
    → bytes_from memory regs.ebx regs.ecx ≡ some bytes
    → All (λ b. b < 256) bytes
    → (next : Monitor) × IsValid next
      × (syscall_handler memory regs m ≡ ok (record regs { eax = regs.ecx }, next))
      × (write m (nonzero_bytes bytes) ≡ ok next)
unfolding syscall_handler call_syscall tty_write
write_call memory regs m bytes v e read low =
    let at : regs.ebx + 0 ≡ regs.ebx = omega arith in
    let (next, run, wrote, valid) =
      tty_write_loop_lem memory regs.ebx regs.ecx 0 m bytes v (rw at read) low in
    (next, valid, rw (e, run) refl, wrote)

unmapped_call :
    (memory : Mapped) (regs : Registers) (m : Monitor)
    → IsValid m
    → regs.eax ≡ 1
    → bytes_from memory regs.ebx regs.ecx ≡ none
    → syscall_handler memory regs m ≡ panic
unfolding syscall_handler call_syscall tty_write
unmapped_call memory regs m v e gone =
    let at : regs.ebx + 0 ≡ regs.ebx = omega arith in
    let run = tty_write_loop_unmapped memory regs.ebx regs.ecx 0 m v (rw at gone) in
    rw (e, run) refl

-- What syscall_handler does with the cursor on the screen, for memory that holds bytes where it is
-- mapped. From call 2 on it prints that the call is invalid, and eax is -1; call 0 prints its own
-- text, and eax is -1. Call 1 reads the ecx bytes from the address in ebx on, round the end of the
-- addresses: if one of them is not mapped, the page fault panics; otherwise it writes those
-- that are not zero to the screen, and eax is ecx. In each case in which it returns, the cursor
-- is on the screen and every register but eax is as it was.
pub syscall_handler_lem :
    (memory : Mapped) (regs : Registers) (m : Monitor)
    → ((a b : ℕ) → memory a ≡ some b → b < 256)
    → IsValid m
    → (2 ≤ regs.eax
        → (next : Monitor) × IsValid next
          × (syscall_handler memory regs m ≡ ok (record regs { eax = minus_one }, next))
          × (write m invalid_text ≡ ok next))
      × (regs.eax ≡ 0
          → (next : Monitor) × IsValid next
            × (syscall_handler memory regs m ≡ ok (record regs { eax = minus_one }, next))
            × (write m null_text ≡ ok next))
      × (regs.eax ≡ 1
          → bytes_from memory regs.ebx regs.ecx ≡ none
          → syscall_handler memory regs m ≡ panic)
      × (regs.eax ≡ 1
          → (bytes : List ℕ) → bytes_from memory regs.ebx regs.ecx ≡ some bytes
          → (next : Monitor) × IsValid next
            × (syscall_handler memory regs m ≡ ok (record regs { eax = regs.ecx }, next))
            × (write m (nonzero_bytes bytes) ≡ ok next))
unfolding syscall_handler call_syscall null_syscall is_plain
syscall_handler_lem memory regs m low v = (
  λ h.
      let (next, printed, wrote, valid) =
        printk_plain invalid_text [] m v (is_plain-IsPlain invalid_text refl) (omega arith) in
      let invalid : leb 2 regs.eax ≡ true = ground arith in
      (next, valid, rw (invalid, printed) refl, wrote),
  λ h.
      let (next, printed, wrote, valid) =
        printk_plain null_text [] m v (is_plain-IsPlain null_text refl) (omega arith) in
      let known : leb 2 regs.eax ≡ false = ground arith in
      let null_call : (regs.eax == 0) ≡ true = ground arith in
      (next, valid, rw (known, null_call, printed) refl, wrote),
  λ h gone. unmapped_call memory regs m v h gone,
  λ h bytes read.
      write_call memory regs m bytes v h read
        (bytes_from_lt memory regs.ebx regs.ecx bytes low read),
)
