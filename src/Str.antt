-- ===== src/Str.antt =====
-- src/string.c: the C string functions and vsprintf. A char is its byte; a string is the list of its
-- bytes before the terminating zero. (`memset` and `memcpy` stand in Memory.antt.)
pub mod Vsprintf
pub mod NumberLoop
pub mod Format
pub mod Laws
mod Examples
use evos.Base.{
  ℕ, zero, suc, ◌+◌, ◌-◌, ◌*◌, ◌/◌, ◌%◌, ◌^◌, Bool, true, false, not, ◌&&◌, ◌||◌, List, [], ◌∷◌,
  ◌++◌, Result, ok, fault, leb, ltb, ◌==◌, if◌then◌else◌, length, replicate, u32, sub32,
}

abbrev pub is_digit : ℕ → Bool
is_digit c = leb 48 c && leb c 57

unfoldable pub strlen : List ℕ → ℕ
strlen [] = 0
strlen (c ∷ string) = suc (strlen string)

-- `(int)*a`: a char is signed; the difference is taken in 32 bits.
abbrev pub int_of_char : ℕ → ℕ
int_of_char c = if ltb c 128 then c else c + 0xFFFFFF00

unfoldable pub strcmp : List ℕ → List ℕ → ℕ
strcmp [] [] = 0
strcmp [] (b ∷ t) = sub32 (int_of_char b) 0
strcmp (a ∷ s) [] = sub32 0 (int_of_char a)
strcmp (a ∷ s) (b ∷ t) =
    let rest = strcmp s t in if a == b then rest else sub32 (int_of_char b) (int_of_char a)

-- The four flags of a conversion, one digit each in the source.
pub record Flags : Type 0 where
  pub signed : Bool
  pub zero_padded : Bool
  pub left_align : Bool
  pub show_prefix : Bool

-- `digits[digit]`
abbrev pub digit_char : ℕ → ℕ
digit_char d = if ltb d 10 then 48 + d else 87 + d

-- The first loop of `append_number`, on fuel: what it adds to the front of the buffer, which is
-- printed from its end, and the width that is left. A width below 0 counts as 0, since it is only
-- compared with 0.
unfoldable pub number_loop : ℕ → ℕ → ℕ → Bool → ℕ → List ℕ → List ℕ × ℕ
number_loop zero i radix left width buf = (buf, width)
number_loop (suc fuel) i radix left width buf =
    let next = digit_char (i % radix) ∷ buf in
    let rest = number_loop fuel (i / radix) radix left (width - 1) next in
    if not (i / radix == 0) || (not left && ltb 0 (width - 1)) then rest else (next, width - 1)

-- `SHOW_PREFIX`, in the order in which it is printed.
unfoldable pub prefix_chars : ℕ → List ℕ
prefix_chars radix =
    if radix == 2
    then 48 ∷ 98 ∷ []
    else if radix == 8
    then 48 ∷ []
    else if radix == 16
    then 48 ∷ 120 ∷ []
    else []

-- `sign` and the value that is printed: `(int)value < 0` is a value from 2 ^ 31 on.
unfoldable pub is_negative : Flags → ℕ → Bool
is_negative flags value = flags.signed && leb (2 ^ 31) value

unfoldable pub magnitude : Flags → ℕ → ℕ
magnitude flags value = if is_negative flags value then sub32 0 value else value

-- What `append_number` does behind its first loop, with the chars and the width that the loop
-- leaves. A buffer of more than BUFSIZE + 1 chars is a fault.
unfoldable pub finish_number : List ℕ → ℕ → ℕ → Flags → List ℕ × ℕ → Result (List ℕ)
finish_number str value radix flags (digits, width) =
    let padding = if flags.zero_padded then 48 else 32 in
    let prefixed = (if flags.show_prefix then prefix_chars radix else []) ++ digits in
    let signed = (if is_negative flags value then 45 ∷ [] else []) ++ prefixed in
    let buf = (if flags.left_align then [] else replicate width padding) ++ signed in
    if ltb 65 (length buf)
    then fault
    else ok (str ++ (buf ++ (if flags.left_align then replicate width padding else [])))

-- A radix outside 2 to 16 prints nothing. The fuel is BUFSIZE: 32 steps finish any value, and 64
-- any width.
unfoldable pub append_number : List ℕ → ℕ → ℕ → Flags → ℕ → Result (List ℕ)
unfolding finish_number
append_number str value radix flags width =
    if ltb radix 2 || ltb 16 radix
    then ok str
    else finish_number str value radix flags (
        number_loop 64 (magnitude flags value) radix flags.left_align
          (if ltb 64 width then 64 else width) [])

-- `skip_atoi`: what is left of the string, and the number.
unfoldable pub skip_atoi : List ℕ → ℕ → List ℕ × ℕ
skip_atoi [] target = ([], target)
skip_atoi (c ∷ str) target =
    let rest = skip_atoi str (u32 (target * 10 + (c - 48))) in
    if is_digit c then rest else (c ∷ str, target)
