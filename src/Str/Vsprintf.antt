-- ===== src/Str/Vsprintf.antt =====
-- `vsprintf`: the output is the bytes that are written to the buffer, whose size the code does not
-- know. An argument is a word or the string that it points to; one that is missing, or of the other
-- kind, is a fault. (va_arg reads them in order.)
pub mod Laws
pub mod Fields
pub mod Items
pub mod Shown
pub mod Output
mod Examples
use evos.Base.{
  ℕ, zero, suc, ◌+◌, ◌-◌, ◌%◌, ◌^◌, Bool, true, false, ◌||◌, List, [], ◌∷◌, ◌++◌, Result, ok, fault,
  ◌>>=◌, ltb, ◌==◌, if◌then◌else◌, length, replicate, u8,
}
use evos.Str.{is_digit, strlen, Flags, append_number, skip_atoi}

pub data Arg : Type 0 where
  number : ℕ → Arg
  text : List ℕ → Arg

-- `va_arg(args, int)`
abbrev pub next_number : List Arg → Result (ℕ × List Arg)
next_number (number v ∷ args) = ok (v, args)
next_number (text string ∷ args) = fault
next_number [] = fault

-- `va_arg(args, char*)`
abbrev pub next_text : List Arg → Result (List ℕ × List Arg)
next_text (text string ∷ args) = ok (string, args)
next_text (number v ∷ args) = fault
next_text [] = fault

abbrev pub no_flags : Flags
no_flags = record { signed = false; zero_padded = false; left_align = false; show_prefix = false }

-- '-', '0' and '#'
abbrev pub is_flag : ℕ → Bool
is_flag c = c == 45 || (c == 48 || c == 35)

-- The switch on a flag.
abbrev pub add_flag : ℕ → Flags → Flags
add_flag c flags =
    if c == 45
    then record flags { left_align = true }
    else if c == 48
    then record flags { zero_padded = true }
    else if c == 35
    then record flags { show_prefix = true }
    else flags

-- The loop over the flags, from the char behind the '%' on: what is left of the format.
unfoldable pub parse_flags : List ℕ → Flags → List ℕ × Flags
parse_flags [] flags = ([], flags)
parse_flags (c ∷ fmt) flags =
    let rest = parse_flags fmt (add_flag c flags) in if is_flag c then rest else (c ∷ fmt, flags)

-- The field width, a 32-bit `int`.
unfoldable pub field_width : List ℕ → List ℕ × ℕ
field_width [] = ([], 0)
field_width (c ∷ fmt) = if is_digit c then skip_atoi (c ∷ fmt) 0 else (c ∷ fmt, 0)

-- A negative width counts as 0, as it is only compared with what is left of it.
abbrev pub positive : ℕ → ℕ
positive width = if ltb width (2 ^ 31) then width else 0

-- The branches that print a number.
unfoldable pub convert_number : ℕ → Flags → ℕ → List Arg → List ℕ → Result (List Arg × List ℕ)
convert_number radix flags width args str = do
  (value, args') ← next_number args
  str' ← append_number str value radix flags (positive width)
  ok (args', str')

-- `case 's'`: the blanks stand in front of the string, or behind it with LEFT_ALIGN.
unfoldable pub convert_text : Flags → ℕ → List Arg → List ℕ → Result (List Arg × List ℕ)
convert_text flags width args str = do
  (param, args') ← next_text args
  let blanks = replicate (positive width - strlen param) 32
  ok (args', str ++ (if flags.left_align then param ++ blanks else blanks ++ param))

-- The switch on the conversion.
unfoldable pub convert : ℕ → Flags → ℕ → List Arg → List ℕ → Result (List Arg × List ℕ)
convert c flags width args str =
    if c == 100
    then convert_number 10 (record flags { signed = true }) width args str
    else if c == 117
    then convert_number 10 flags width args str
    else if c == 112
    then convert_number 16 (record flags { zero_padded = true; show_prefix = true })
        (if width == 0 then 8 else width) args str
    else if c == 120
    then convert_number 16 flags width args str
    else if c == 111
    then convert_number 8 flags width args str
    else if c == 98
    then convert_number 2 flags width args str
    else if c == 99
    then (do (value, args') ← next_number args; ok (args', str ++ u8 value ∷ []))
    else if c == 115
    then convert_text flags width args str
    else ok (args, str ++ c ∷ [])

-- What stands behind a '%': flags, width and conversion, and the rest of the format. Without a
-- conversion the loop would copy the terminating zero and read on behind it, which is a fault.
abbrev pub conversion_of : List ℕ × ℕ → Flags → Result (ℕ × Flags × ℕ × List ℕ)
conversion_of ([], width) flags = fault
conversion_of (conversion ∷ rest, width) flags = ok (conversion, flags, width, rest)

unfoldable pub next_field : List ℕ → Result (ℕ × Flags × ℕ × List ℕ)
next_field fmt =
    conversion_of (field_width (parse_flags fmt no_flags).0) (parse_flags fmt no_flags).1

-- The loop over the format, on fuel.
unfoldable pub vsprintf_loop : ℕ → List ℕ → List Arg → List ℕ → Result (List ℕ)
vsprintf_loop zero fmt args str = fault
vsprintf_loop (suc fuel) [] args str = ok str
vsprintf_loop (suc fuel) (c ∷ fmt) args str = elim (c == 37) [
  | Bool.false ↦ vsprintf_loop fuel fmt args (str ++ c ∷ [])
  | Bool.true ↦ do
    (conversion, flags, width, rest) ← next_field fmt
    (args', str') ← convert conversion flags width args str
    vsprintf_loop fuel rest args' str'
]

-- The bytes of the buffer, and the result, which counts the terminating zero.
unfoldable pub vsprintf : List ℕ → List Arg → Result (List ℕ × ℕ)
vsprintf fmt args = do
  str ← vsprintf_loop (suc (length fmt)) fmt args []
  ok (str ++ 0 ∷ [], length str + 1)
