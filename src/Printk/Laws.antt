-- ===== src/Printk/Laws.antt =====
-- printk from the format to the screen.
use evos.Base.{
  ℕ, ◌<◌, ◌≡◌, ◌≢◌, refl, ap, false, List, [], ◌∷◌, ◌++◌, All, ok, arith, ltb, ◌==◌, length,
  length-append,
}
use evos.Monitor.{Monitor, write}
use evos.Monitor.Laws.{IsValid, write-IsValid}
use evos.Str.Vsprintf.{Arg}
use evos.Str.Vsprintf.Laws.{Piece, written, IsPiece, meaning, vsprintf_lem}
use evos.Printk.{c_string, printk}

c_string-snoc : (str : List ℕ) → All (λ c. c ≢ 0) str → c_string (str ++ 0 ∷ []) ≡ str
c_string-snoc [] all = refl
c_string-snoc (c ∷ str) (here, all) =
    let other : (c == 0) ≡ false = ground arith in
    rw other (ap (λ t. c ∷ t) (c_string-snoc str all))

-- On a screen with the cursor on it, with a format of chars and complete fields whose arguments
-- print less than 4096 bytes, none of them zero: printk writes just these bytes, the cursor stays on
-- the screen, and the result is 0, however many bytes were written.
pub printk_lem :
    (ps : List Piece) (args : List Arg) (m : Monitor) (str : List ℕ)
    → IsValid m
    → All IsPiece ps
    → meaning ps args [] ≡ ok str
    → All (λ c. c ≢ 0) str
    → length str < 4096
    → (next : Monitor) × (printk (written ps) args m ≡ ok (0, next))
      × (write m str ≡ ok next)
      × IsValid next
unfolding printk
printk_lem ps args m str v all prints nonzero short =
    let (next, wrote, valid) = write-IsValid m str v in
    let fits : ltb 4096 (length (str ++ 0 ∷ [])) ≡ false =
      ground (arith, length-append str (0 ∷ [])) in
    (
      next,
      rw (vsprintf_lem ps args all, prints, fits, c_string-snoc str nonzero, wrote) refl,
      wrote,
      valid,
    )
