-- ===== src/Str/Vsprintf/Fields.antt =====
-- What single fields of a format print.
use evos.Base.{
  ℕ, suc, ◌-◌, ◌^◌, ◌≤◌, ◌<◌, ◌≡◌, ◌≢◌, refl, ap, true, false, List, [], ◌∷◌, ◌++◌, map, All, ok,
  arith, length, leb,
}
use mathlib.Core.List.{append-nil}
use evos.Base.Digits.{value_from}
use evos.Str.{digit_char, strlen, Flags, magnitude, is_negative, prefix_chars}
use evos.Str.Format.{append_number-printed}
use evos.Str.Vsprintf.{Arg, number, text, no_flags, convert, convert_number, convert_text}

-- Digits that stand for a number.
abbrev pub IsWritten : ℕ → ℕ → List ℕ → Type 0
IsWritten radix value ds =
    (value_from radix 0 ds ≡ value) × All (λ d. d < radix) ds × (1 ≤ length ds) × (length ds ≤ 62)

digit_char_nonzero : (d : ℕ) → digit_char d ≢ 0
digit_char_nonzero d e = ground arith

pub digits_nonzero : (ds : List ℕ) → All (λ c. c ≢ 0) (map digit_char ds)
digits_nonzero [] = tt
digits_nonzero (d ∷ ds) = (digit_char_nonzero d, digits_nonzero ds)

pub length-digits : (ds : List ℕ) → length (map digit_char ds) ≡ length ds
length-digits [] = refl
length-digits (d ∷ ds) = ap suc (length-digits ds)

-- "%s" appends its argument.
pub convert_string :
    (name : List ℕ) (flags : Flags) (args : List Arg) (str : List ℕ)
    → flags.left_align ≡ false
    → convert 115 flags 0 (text name ∷ args) str ≡ ok (args, str ++ name)
unfolding convert convert_text strlen
convert_string name flags args str right =
    let none_left : 0 - length name ≡ 0 = omega arith in rw (right, none_left) refl

-- "%#08x" appends eight digits or more behind "0x".
pub convert_pointer :
    (value : ℕ) (args : List Arg) (str : List ℕ)
    → value < 2 ^ 32
    → (ds : List ℕ) × IsWritten 16 value ds
      × (convert 120
            (record { signed = false; zero_padded = true; left_align = false; show_prefix = true })
            8
            (number value ∷ args)
            str
          ≡ ok (args, str ++ 48 ∷ 120 ∷ map digit_char ds))
unfolding convert convert_number magnitude is_negative prefix_chars
convert_pointer value args str word =
    let (ds, blanks, run, stands, small, one, room, wide, few) =
      append_number-printed str value 16
        (record { signed = false; zero_padded = true; left_align = false; show_prefix = true }) 8
        word (omega arith) (omega arith) (omega arith) in
    let none_left : blanks ≡ 0 = omega (arith, room, wide refl) in
    (
      ds,
      (stands, small, one, few),
      rw (run, none_left)
          (ap (λ t. ok (args, str ++ 48 ∷ 120 ∷ t)) (append-nil (map digit_char ds))),
    )

-- "%d" appends the digits of a number that is not negative.
pub convert_decimal :
    (value : ℕ) (args : List Arg) (str : List ℕ)
    → value < 2 ^ 31
    → (ds : List ℕ) × IsWritten 10 value ds
      × (convert 100 no_flags 0 (number value ∷ args) str ≡ ok (args, str ++ map digit_char ds))
unfolding convert convert_number magnitude is_negative
convert_decimal value args str low =
    let (ds, blanks, run, stands, small, one, room, wide, few) =
      append_number-printed str value 10 (record no_flags { signed = true }) 0 (omega arith)
        (omega arith) (omega arith) (omega arith) in
    let none_left : blanks ≡ 0 = omega (arith, room) in
    let positive : leb (2 ^ 31) value ≡ false = ground arith in
    (
      ds,
      ((rw positive at stands), small, one, few),
      rw (run, none_left, positive)
          (ap (λ t. ok (args, str ++ t)) (append-nil (map digit_char ds))),
    )

-- "%p" appends eight digits or more behind "0x".
pub convert_address :
    (value : ℕ) (args : List Arg) (str : List ℕ)
    → value < 2 ^ 32
    → (ds : List ℕ) × IsWritten 16 value ds
      × (convert 112 no_flags 0 (number value ∷ args) str
          ≡ ok (args, str ++ 48 ∷ 120 ∷ map digit_char ds))
unfolding convert
convert_address value args str word = convert_pointer value args str word

-- "%08x" appends eight digits or more.
pub convert_hex :
    (value : ℕ) (args : List Arg) (str : List ℕ)
    → value < 2 ^ 32
    → (ds : List ℕ) × IsWritten 16 value ds
      × (convert 120 (record no_flags { zero_padded = true }) 8 (number value ∷ args) str
          ≡ ok (args, str ++ map digit_char ds))
unfolding convert convert_number magnitude is_negative
convert_hex value args str word =
    let (ds, blanks, run, stands, small, one, room, wide, few) =
      append_number-printed str value 16 (record no_flags { zero_padded = true }) 8 word
        (omega arith) (omega arith) (omega arith) in
    let none_left : blanks ≡ 0 = omega (arith, room, wide refl) in
    (
      ds,
      (stands, small, one, few),
      rw (run, none_left) (ap (λ t. ok (args, str ++ t)) (append-nil (map digit_char ds))),
    )
