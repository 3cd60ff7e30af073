-- ===== src/Str/Format/Text.antt =====
-- The text of a number, against which append_number is checked.
use evos.Base.{
  ℕ, ◌+◌, ◌-◌, ◌^◌, ◌<◌, ◌≡◌, refl, ap₂, Bool, ◌&&◌, List, [], ◌∷◌, ◌++◌, map, arith, leb, ltb,
  ◌==◌, if◌then◌else◌, replicate,
}
use evos.Str.{Flags, digit_char, prefix_chars, is_negative, magnitude}

-- What a number is printed as, apart from the code: '-' for a word from 2 ^ 31 on if the conversion is signed, the prefix
-- of the radix, digits from '0' and from 'a' on, and blanks.
abbrev pub is_below_zero : Flags → ℕ → Bool
is_below_zero flags value = flags.signed && leb (2 ^ 31) value

abbrev pub prefix_text : ℕ → List ℕ
prefix_text radix =
    if radix == 16
    then 48 ∷ 120 ∷ []
    else if radix == 8
    then 48 ∷ []
    else if radix == 2
    then 48 ∷ 98 ∷ []
    else []

abbrev pub digit_text : ℕ → ℕ
digit_text d = if ltb d 10 then 48 + d else 97 + (d - 10)

abbrev pub number_text : ℕ → ℕ → Flags → List ℕ → ℕ → List ℕ
number_text value radix flags ds blanks =
    (if is_below_zero flags value then 45 ∷ [] else [])
    ++ ((if flags.show_prefix then prefix_text radix else [])
        ++ (map digit_text ds ++ replicate blanks (if flags.zero_padded then 48 else 32)))

abbrev pub distance_from_zero : Flags → ℕ → ℕ
distance_from_zero flags value = if is_below_zero flags value then 2 ^ 32 - value else value

pub prefix_lem : (radix : ℕ) → prefix_chars radix ≡ prefix_text radix
unfolding prefix_chars
prefix_lem radix = ground arith

pub digits_lem : (ds : List ℕ) → map digit_char ds ≡ map digit_text ds
digits_lem [] = refl
digits_lem (d ∷ ds) =
    let here : digit_char d ≡ digit_text d = ground arith in
    ap₂ (λ c cs. c ∷ cs) here (digits_lem ds)

pub magnitude_shown :
    (flags : Flags) (value : ℕ)
    → value < 2 ^ 32
    → magnitude flags value ≡ distance_from_zero flags value
unfolding magnitude is_negative
magnitude_shown flags value word = ground arith
