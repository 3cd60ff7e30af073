-- ===== src/Str/Vsprintf/Laws.antt =====
-- vsprintf against the meaning of a format that is already taken apart.

use evos.Base.{
  ℕ, zero, suc, ◌+◌, ◌^◌, ◌<◌, ◌≡◌, ◌≢◌, refl, ◌∙◌, Bool, true, false, List, [], ◌∷◌, ◌++◌, map,
  All, Result, ok, ◌>>=◌, second_part, arith, ◌==◌, length, length-append,
}
use evos.Base.Digits.{value_from}
use evos.Str.{is_digit, Flags}
use evos.Str.Laws.{skip_atoi_lem}
use evos.Str.Vsprintf.{
  Arg, no_flags, is_flag, add_flag, parse_flags, field_width, convert, next_field, vsprintf_loop,
  vsprintf,
}

-- A format taken apart: chars other than '%', and fields with their flags, the digits of their width
-- and their conversion.
pub data Piece : Type 0 where
  literal : ℕ → Piece
  field : List ℕ → List ℕ → ℕ → Piece

-- The string that the pieces are written as.
abbrev pub written : List Piece → List ℕ
written [] = []
written (literal c ∷ ps) = c ∷ written ps
written (field flags digits conversion ∷ ps) =
    37 ∷ (flags ++ (map (λ d. 48 + d) digits ++ conversion ∷ written ps))

abbrev pub leading_zero : List ℕ → Bool
leading_zero [] = false
leading_zero (d ∷ ds) = d == 0

-- The pieces that a format can have: a width does not start with 0 and fits 32 bits, and a
-- conversion is neither a flag nor a digit.
abbrev pub IsPiece : Piece → Type 0
IsPiece (literal c) = c ≢ 37
IsPiece (field flags digits conversion) =
    All (λ c. is_flag c ≡ true) flags
    × All (λ d. d < 10) digits
    × (leading_zero digits ≡ false)
    × (value_from 10 0 digits < 2 ^ 32)
    × (is_flag conversion ≡ false)
    × (is_digit conversion ≡ false)

abbrev pub all_flags : List ℕ → Flags → Flags
all_flags [] flags = flags
all_flags (c ∷ cs) flags = all_flags cs (add_flag c flags)

-- What the pieces print, from left to right.
abbrev pub meaning : List Piece → List Arg → List ℕ → Result (List ℕ)
meaning [] args str = ok str
meaning (literal c ∷ ps) args str = meaning ps args (str ++ c ∷ [])
meaning (field flags digits conversion ∷ ps) args str =
    convert conversion (all_flags flags no_flags) (value_from 10 0 digits) args str >>= λ r.
    meaning ps r.0 r.1

parse_flags_lem :
    (flags : List ℕ) (c : ℕ) (rest : List ℕ) (start : Flags)
    → All (λ c. is_flag c ≡ true) flags
    → is_flag c ≡ false
    → parse_flags (flags ++ c ∷ rest) start ≡ (c ∷ rest, all_flags flags start)
unfolding parse_flags
parse_flags_lem [] c rest start all stop = rw stop refl
parse_flags_lem (f ∷ flags) c rest start (here, all) stop =
    rw here (parse_flags_lem flags c rest (add_flag f start) all stop)

-- The first char behind the flags is that of the width or of the conversion.
width_lem :
    (flags digits : List ℕ) (conversion : ℕ) (rest : List ℕ) (start : Flags)
    → IsPiece (field flags digits conversion)
    → (parse_flags (flags ++ (map (λ d. 48 + d) digits ++ conversion ∷ rest)) start
        ≡ (map (λ d. 48 + d) digits ++ conversion ∷ rest, all_flags flags start))
      × (field_width (map (λ d. 48 + d) digits ++ conversion ∷ rest)
          ≡ (conversion ∷ rest, value_from 10 0 digits))
unfolding field_width
width_lem flags [] conversion rest start (marks, small, first, low, no_flag, no_digit) =
    (parse_flags_lem flags conversion rest start marks no_flag, rw no_digit refl)
width_lem flags (d ∷ ds) conversion rest start
      (marks, (d_small, small), first, low, no_flag, no_digit) =
    let digit : is_digit (48 + d) ≡ true = ground arith in
    let no_mark : is_flag (48 + d) ≡ false = ground arith in
    (
      parse_flags_lem flags (48 + d) (map (λ d. 48 + d) ds ++ conversion ∷ rest) start marks
          no_mark,
      rw digit (skip_atoi_lem (d ∷ ds) (conversion ∷ rest) (d_small, small) no_digit low),
    )

next_field_lem :
    (flags digits : List ℕ) (conversion : ℕ) (rest : List ℕ)
    → IsPiece (field flags digits conversion)
    → next_field (flags ++ (map (λ d. 48 + d) digits ++ conversion ∷ rest))
      ≡ ok (conversion, all_flags flags no_flags, value_from 10 0 digits, rest)
unfolding next_field
next_field_lem flags digits conversion rest piece =
    let (marks, width) = width_lem flags digits conversion rest no_flags piece in
    rw (marks, width) refl

-- The loop on a char, and on a field.
loop_char :
    (fuel c : ℕ) (fmt : List ℕ) (args : List Arg) (str : List ℕ)
    → c ≢ 37
    → vsprintf_loop (suc fuel) (c ∷ fmt) args str ≡ vsprintf_loop fuel fmt args (str ++ c ∷ [])
unfolding vsprintf_loop
loop_char fuel c fmt args str ne = ground arith

loop_field :
    (fuel : ℕ) (fmt : List ℕ) (args : List Arg) (str : List ℕ)
    → vsprintf_loop (suc fuel) (37 ∷ fmt) args str ≡ (
        next_field fmt >>= λ f.
        convert f.0 f.1 f.2 args str >>= λ r. vsprintf_loop fuel f.3 r.0 r.1)
unfolding vsprintf_loop
loop_field fuel fmt args str = refl

shorter :
    (flags digits : List ℕ) (conversion : ℕ) (rest : List ℕ)
    → length rest < length (flags ++ (map (λ d. 48 + d) digits ++ conversion ∷ rest))
shorter flags digits conversion rest = omega (
  arith,
  length-append flags (map (λ d. 48 + d) digits ++ conversion ∷ rest),
  length-append (map (λ d. 48 + d) digits) (conversion ∷ rest),
)

vsprintf_loop_lem :
    (fuel : ℕ) (ps : List Piece) (args : List Arg) (str : List ℕ)
    → All IsPiece ps
    → length (written ps) < fuel
    → vsprintf_loop fuel (written ps) args str ≡ meaning ps args str
vsprintf_loop_lem zero ps args str all enough = absurd (omega arith)
vsprintf_loop_lem (suc fuel) [] args str all enough = unfold vsprintf_loop in refl
vsprintf_loop_lem (suc fuel) (literal c ∷ ps) args str (here, all) enough =
    loop_char fuel c (written ps) args str here
    ∙ vsprintf_loop_lem fuel ps args (str ++ c ∷ []) all (omega arith)
vsprintf_loop_lem (suc fuel) (field flags digits conversion ∷ ps) args str (here, all) enough =
    loop_field fuel (flags ++ (map (λ d. 48 + d) digits ++ conversion ∷ written ps)) args str
    ∙ rw (next_field_lem flags digits conversion (written ps) here) (
        second_part
          (convert conversion (all_flags flags no_flags) (value_from 10 0 digits) args str)
          (λ r. vsprintf_loop fuel (written ps) r.0 r.1) (λ r. meaning ps r.0 r.1)
          (λ r.
            vsprintf_loop_lem fuel ps r.0 r.1 all
              (omega (arith, shorter flags digits conversion (written ps)))))

-- On a format that is made of chars and of complete fields, vsprintf ends, and it writes what these
-- print from left to right with the arguments in order, and a zero byte; a field that has no
-- argument of its kind, or whose number overruns its buffer, is a fault. The result is the number of
-- bytes with the zero byte.
pub vsprintf_lem :
    (ps : List Piece) (args : List Arg)
    → All IsPiece ps
    → vsprintf (written ps) args
      ≡ (meaning ps args [] >>= λ str. ok (str ++ 0 ∷ [], length str + 1))
unfolding vsprintf
vsprintf_lem ps args all =
    rw (vsprintf_loop_lem (suc (length (written ps))) ps args [] all (omega arith)) refl
