-- ===== src/Printk/Plain.antt =====
-- printk of a fixed text, and of one char.
use evos.Base.{
  ℕ, ◌<◌, ◌≡◌, ◌≢◌, refl, sym, ap, ◌∙◌, List, [], ◌∷◌, ◌++◌, All, ok, arith, length, map, u8,
  if◌then◌else◌, ◌==◌, Bool-cases, inl, inr, false, true, Bool,
}
use mathlib.Core.List.{append_assoc, append-nil}
use evos.Monitor.{Monitor, write}
use evos.Monitor.Laws.{IsValid}
use evos.Str.Vsprintf.{Arg, number, convert}
use evos.Str.Vsprintf.Laws.{vsprintf_lem, Piece, literal, field, written, IsPiece, meaning}
use evos.Printk.{printk}
use evos.Printk.Laws.{printk_lem}

-- A text without '%' and without a zero.
abbrev pub IsPlain : List ℕ → Type 0
IsPlain str = All (λ c. (c ≢ 37) × (c ≢ 0)) str

-- The same as a test.
unfoldable pub is_plain : List ℕ → Bool
is_plain [] = true
is_plain (c ∷ str) =
    let rest = is_plain str in if c == 37 then false else if c == 0 then false else rest

pub is_plain-IsPlain : (str : List ℕ) → is_plain str ≡ true → IsPlain str
unfolding is_plain
is_plain-IsPlain [] e = tt
is_plain-IsPlain (c ∷ str) e =
    ((λ z. ground arith, λ z. ground arith), is_plain-IsPlain str (ground arith))

pieces_of : List ℕ → List Piece
pieces_of str = map literal str

written-pieces_of : (str : List ℕ) → written (pieces_of str) ≡ str
unfolding pieces_of
written-pieces_of [] = refl
written-pieces_of (c ∷ str) = ap (λ t. c ∷ t) (written-pieces_of str)

pieces_of-IsPiece : (str : List ℕ) → IsPlain str → All IsPiece (pieces_of str)
unfolding pieces_of
pieces_of-IsPiece [] plain = tt
pieces_of-IsPiece (c ∷ str) (here, plain) = (here.0, pieces_of-IsPiece str plain)

meaning-pieces_of :
    (str : List ℕ) (args : List Arg) (start : List ℕ)
    → meaning (pieces_of str) args start ≡ ok (start ++ str)
unfolding pieces_of
meaning-pieces_of [] args start = ap ok (sym (append-nil start))
meaning-pieces_of (c ∷ str) args start =
    meaning-pieces_of str args (start ++ c ∷ []) ∙ ap ok (append_assoc start (c ∷ []) str)

nonzero_text : (str : List ℕ) → IsPlain str → All (λ c. c ≢ 0) str
nonzero_text [] plain = tt
nonzero_text (c ∷ str) (here, plain) = (here.1, nonzero_text str plain)

-- A text without '%' and zeros, of less than 4096 bytes, is written to the screen as it is.
pub printk_plain :
    (str : List ℕ) (args : List Arg) (m : Monitor)
    → IsValid m
    → IsPlain str
    → length str < 4096
    → (next : Monitor) × (printk str args m ≡ ok (0, next)) × (write m str ≡ ok next) × IsValid next
printk_plain str args m v plain short =
    let (next, printed, wrote, valid) =
      printk_lem (pieces_of str) args m str v (pieces_of-IsPiece str plain)
        (meaning-pieces_of str args []) (nonzero_text str plain) short in
    (next, ap (λ f. printk f args m) (sym (written-pieces_of str)) ∙ printed, wrote, valid)

-- "%c" shows the lowest byte of its argument, unless that is zero.
unfoldable pub shown : ℕ → List ℕ
shown value = if u8 value == 0 then [] else u8 value ∷ []

pub printk_char :
    (value : ℕ) (m : Monitor)
    → IsValid m
    → (next : Monitor) × (printk (37 ∷ 99 ∷ []) (number value ∷ []) m ≡ ok (0, next))
      × (write m (shown value) ≡ ok next)
      × IsValid next
unfolding shown printk convert write
printk_char value m v =
    let fields : All IsPiece (field [] [] 99 ∷ []) =
      ((tt, tt, refl, omega arith, refl, refl), tt) in
    let prints = vsprintf_lem (field [] [] 99 ∷ []) (number value ∷ []) fields in
    elim (Bool-cases (u8 value == 0)) [
      | inl zero_byte ↦ (m, rw (prints, zero_byte) refl, rw zero_byte refl, v)
      | inr other ↦
          let (next, printed, wrote, valid) =
            printk_lem (field [] [] 99 ∷ []) (number value ∷ []) m (u8 value ∷ []) v fields refl
              ((λ z. ground arith), tt) (omega arith) in
          (next, printed, rw other wrote, valid)
    ]
