-- ===== src/Usermode/Laws.antt =====
-- printf of a user program, from the format through the system call to the screen.
use evos.Base.{
  ℕ, u32, sub32, some, ◌^◌, ◌+◌, ◌<◌, ◌≡◌, ◌≢◌, refl, sym, ap, ◌∙◌, true, false, ltb, ◌==◌, List,
  [], ◌∷◌, ◌++◌, All, All-append, length, length-append, get_or, ok, arith,
}
use mathlib.Core.List.{append_assoc}
use evos.Monitor.{Monitor, write}
use evos.Monitor.Laws.{IsValid}
use evos.Registers.{Registers}
use evos.Str.Vsprintf.{Arg}
use evos.Str.Vsprintf.Laws.{Piece, written, IsPiece, meaning, vsprintf_lem}
use evos.Syscall.{Mapped}
use evos.Syscall.Laws.{bytes_from, nonzero_bytes, write_call}
use evos.Usermode.{user_write, with_bytes, printf}

with_bytes_inside :
    (memory : Mapped) (a : ℕ) (bytes : List ℕ) (k : ℕ)
    → k < length bytes
    → length bytes < 2 ^ 32
    → with_bytes memory a bytes (u32 (a + k)) ≡ some (get_or bytes k 0)
unfolding with_bytes
with_bytes_inside memory a bytes k inside small =
    let at : sub32 (u32 (a + k)) (u32 a) ≡ k = omega arith in
    let here : ltb k (length bytes) ≡ true = ground arith in rw (at, here) refl

get_or-here : (front back : List ℕ) (b : ℕ) → get_or (front ++ b ∷ back) (length front) 0 ≡ b
get_or-here [] back b = refl
get_or-here (c ∷ front) back b = get_or-here front back b

-- What can be read where a list of bytes is stored.
bytes_from_stored :
    (memory : Mapped) (a : ℕ) (front back : List ℕ)
    → length (front ++ back) < 2 ^ 32
    → bytes_from (with_bytes memory a (front ++ back)) (a + length front) (length back) ≡ some back
bytes_from_stored memory a front [] small = refl
bytes_from_stored memory a front (b ∷ back) small =
    let here =
      with_bytes_inside memory a (front ++ b ∷ back) (length front)
        (omega (arith, length-append front (b ∷ back))) small in
    let byte = get_or-here front back b in
    let list : (front ++ b ∷ []) ++ back ≡ front ++ b ∷ back = append_assoc front (b ∷ []) back in
    let size : a + length (front ++ b ∷ []) ≡ a + length front + 1 =
      omega (arith, length-append front (b ∷ [])) in
    let rest = bytes_from_stored memory a (front ++ b ∷ []) back (rw list small) in
    let rest' : bytes_from (with_bytes memory a (front ++ b ∷ back)) (a + length front + 1)
          (length back)
        ≡ some back =
      rw (list, size) at rest in
    rw (here, byte, rest') refl

-- A C string has no zero but the last.
nonzero_bytes-string : (str : List ℕ) → All (λ c. c ≢ 0) str → nonzero_bytes (str ++ 0 ∷ []) ≡ str
nonzero_bytes-string [] all = refl
nonzero_bytes-string (c ∷ str) (here, all) =
    let some_byte : (c == 0) ≡ false = ground arith in
    rw (some_byte, nonzero_bytes-string str all) refl

-- printf in a user program, with a format of chars and complete fields whose arguments print less
-- than 4096 bytes, none of them zero, and with the cursor on the screen: just these bytes are
-- written to the screen, and the result is their number and one more, since the system
-- call also gets the zero byte that ends them, and shows nothing for it.
pub printf_lem :
    (memory : Mapped) (regs : Registers) (buf : ℕ) (ps : List Piece) (args : List Arg) (m : Monitor)
    (str : List ℕ)
    → IsValid m
    → All IsPiece ps
    → meaning ps args [] ≡ ok str
    → All (λ c. c ≢ 0) str
    → All (λ c. c < 256) str
    → length str < 4096
    → (next : Monitor) × (printf memory regs buf (written ps) args m ≡ ok (length str + 1, next))
      × (write m str ≡ ok next)
      × IsValid next
unfolding printf user_write
printf_lem memory regs buf ps args m str v all prints nonzero bytes short =
    let text = str ++ 0 ∷ [] in
    let size : length text ≡ length str + 1 = omega (arith, length-append str (0 ∷ [])) in
    let fits : ltb 4096 (length text) ≡ false = ground (arith, size) in
    let start : buf + 0 ≡ buf = omega arith in
    let stored = with_bytes memory buf text in
    let call = record regs { eax = 1; ebx = buf; ecx = length str + 1 } in
    let at_start = bytes_from_stored memory buf [] text (omega (arith, size)) in
    let read : bytes_from stored buf (length str + 1) ≡ some text = rw (start, size) at at_start in
    let (next, valid, run, shown) =
      write_call stored call m text v refl read
        (All-append (λ c. c < 256) str (0 ∷ []) bytes (omega arith, tt)) in
    (
      next,
      rw (vsprintf_lem ps args all, prints, fits, run) refl,
      ap (write m) (sym (nonzero_bytes-string str nonzero)) ∙ shown,
      valid,
    )
