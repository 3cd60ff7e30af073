-- ===== src/Str/Vsprintf/Items.antt =====
-- What a format with its arguments prints, apart from the code: the fields of a format by what they
-- stand for, and the text of each.
use evos.Base.{
  ℕ, ◌-◌, ◌%◌, ◌^◌, ◌≤◌, ◌<◌, ◌≡◌, ◌≢◌, ◌⊎◌, Bool, true, false, List, [], ◌∷◌, ◌++◌, map, All, leb,
  ◌==◌, if◌then◌else◌, length, replicate,
}
use evos.Base.Digits.{value_from}
use evos.Str.Format.Text.{digit_text}
use evos.Str.Vsprintf.{Arg, number, text}
use evos.Str.Vsprintf.Laws.{Piece, literal, field, leading_zero}

-- '-', '0' and '#'
pub data Mark : Type 0 where
  to_left : Mark
  with_zeros : Mark
  with_prefix : Mark

abbrev pub mark_char : Mark → ℕ
mark_char to_left = 45
mark_char with_zeros = 48
mark_char with_prefix = 35

-- Which of them stand in a field.
abbrev pub is_left : List Mark → Bool
is_left [] = false
is_left (to_left ∷ marks) = true
is_left (with_zeros ∷ marks) = is_left marks
is_left (with_prefix ∷ marks) = is_left marks

abbrev pub is_zeros : List Mark → Bool
is_zeros [] = false
is_zeros (to_left ∷ marks) = is_zeros marks
is_zeros (with_zeros ∷ marks) = true
is_zeros (with_prefix ∷ marks) = is_zeros marks

abbrev pub is_prefix : List Mark → Bool
is_prefix [] = false
is_prefix (to_left ∷ marks) = is_prefix marks
is_prefix (with_zeros ∷ marks) = is_prefix marks
is_prefix (with_prefix ∷ marks) = true

-- 'd', 'u', 'x', 'o', 'b' and 'p'
pub data NumberBase : Type 0 where
  decimal : NumberBase
  unsigned : NumberBase
  hex : NumberBase
  octal : NumberBase
  binary : NumberBase
  pointer : NumberBase

abbrev pub base_char : NumberBase → ℕ
base_char decimal = 100
base_char unsigned = 117
base_char hex = 120
base_char octal = 111
base_char binary = 98
base_char pointer = 112

abbrev pub radix_of : NumberBase → ℕ
radix_of decimal = 10
radix_of unsigned = 10
radix_of hex = 16
radix_of octal = 8
radix_of binary = 2
radix_of pointer = 16

-- A char of the format, or a field with its marks, the digits of its width, and its argument: a number
-- in a base, a char, a string, or a conversion without a meaning, which has no argument.
pub data Item : Type 0 where
  plain : ℕ → Item
  numeral : List Mark → List ℕ → NumberBase → ℕ → Item
  letter : List Mark → List ℕ → ℕ → Item
  string : List Mark → List ℕ → List ℕ → Item
  other : List Mark → List ℕ → ℕ → Item

abbrev pub piece_of : Item → Piece
piece_of (plain c) = literal c
piece_of (numeral marks digits base value) = field (map mark_char marks) digits (base_char base)
piece_of (letter marks digits value) = field (map mark_char marks) digits 99
piece_of (string marks digits str) = field (map mark_char marks) digits 115
piece_of (other marks digits c) = field (map mark_char marks) digits c

-- The arguments of the items, with those behind them.
abbrev pub args_of : List Item → List Arg → List Arg
args_of [] more = more
args_of (plain c ∷ items) more = args_of items more
args_of (numeral marks digits base value ∷ items) more = number value ∷ args_of items more
args_of (letter marks digits value ∷ items) more = number value ∷ args_of items more
args_of (string marks digits str ∷ items) more = text str ∷ args_of items more
args_of (other marks digits c ∷ items) more = args_of items more

-- A width of at most 62 that does not start with 0.
abbrev pub IsWidth : List ℕ → Type 0
IsWidth digits =
    All (λ d. d < 10) digits × (leading_zero digits ≡ false) × (value_from 10 0 digits ≤ 62)

-- Flags, digits and the conversions that have a meaning.
abbrev pub IsOther : ℕ → Type 0
IsOther c =
    (c ≢ 45)
    × (c ≢ 48)
    × (c ≢ 35)
    × (c ≢ 100)
    × (c ≢ 117)
    × (c ≢ 120)
    × (c ≢ 111)
    × (c ≢ 98)
    × (c ≢ 112)
    × (c ≢ 99)
    × (c ≢ 115)
    × ((c < 48) ⊎ (57 < c))

abbrev pub IsItem : Item → Type 0
IsItem (plain c) = c ≢ 37
IsItem (numeral marks digits base value) = IsWidth digits × (value < 2 ^ 32)
IsItem (letter marks digits value) = IsWidth digits
IsItem (string marks digits str) = IsWidth digits
IsItem (other marks digits c) = IsWidth digits × IsOther c

-- A sign, a prefix, the digits of a number, and behind them what is left of the width. Without '-' the
-- digits alone reach the width.
pub record IsNumeral (marks : List Mark) (width radix : ℕ) (sign prefix : List ℕ) (pad value : ℕ)
    (shown : List ℕ) : Type 0 where
  pub ds : List ℕ
  pub blanks : ℕ
  pub parts : shown ≡ sign ++ (prefix ++ (map digit_text ds ++ replicate blanks pad))
  pub stands : value_from radix 0 ds ≡ value
  pub small : All (λ d. d < radix) ds
  pub one : 1 ≤ length ds
  pub few : length ds ≤ 62
  pub filled : blanks ≡ width - length ds
  pub wide : is_left marks ≡ false → width ≤ length ds

abbrev pub pad_of : List Mark → ℕ
pad_of marks = if is_zeros marks then 48 else 32

-- The prefix that '#' asks for.
abbrev pub prefix_of : List Mark → List ℕ → List ℕ
prefix_of marks prefix = if is_prefix marks then prefix else []

-- A number in a base; it is signed for 'd' alone, and 'p' has eight digits and a prefix by default.
abbrev pub IsBased : NumberBase → List Mark → ℕ → ℕ → List ℕ → Type 0
IsBased decimal marks width value shown =
    if leb (2 ^ 31) value
    then IsNumeral marks width 10 (45 ∷ []) [] (pad_of marks) (2 ^ 32 - value) shown
    else IsNumeral marks width 10 [] [] (pad_of marks) value shown
IsBased unsigned marks width value shown = IsNumeral marks width 10 [] [] (pad_of marks) value shown
IsBased hex marks width value shown =
    IsNumeral marks width 16 [] (prefix_of marks (48 ∷ 120 ∷ [])) (pad_of marks) value shown
IsBased octal marks width value shown =
    IsNumeral marks width 8 [] (prefix_of marks (48 ∷ [])) (pad_of marks) value shown
IsBased binary marks width value shown =
    IsNumeral marks width 2 [] (prefix_of marks (48 ∷ 98 ∷ [])) (pad_of marks) value shown
IsBased pointer marks width value shown =
    IsNumeral marks (if width == 0 then 8 else width) 16 [] (48 ∷ 120 ∷ []) 48 value shown

-- What a single item prints.
abbrev pub IsShown : Item → List ℕ → Type 0
IsShown (plain c) shown = shown ≡ c ∷ []
IsShown (numeral marks digits base value) shown =
    IsBased base marks (value_from 10 0 digits) value shown
IsShown (letter marks digits value) shown = shown ≡ value % 256 ∷ []
IsShown (string marks digits str) shown = shown ≡ (
    if is_left marks
    then str ++ replicate (value_from 10 0 digits - length str) 32
    else replicate (value_from 10 0 digits - length str) 32 ++ str)
IsShown (other marks digits c) shown = shown ≡ c ∷ []

-- What items print one after the other.
abbrev pub IsOutput : List Item → List ℕ → Type 0
IsOutput [] str = str ≡ []
IsOutput (item ∷ items) str =
    (first : List ℕ) × (rest : List ℕ) × (str ≡ first ++ rest)
    × IsShown item first
    × IsOutput items rest
