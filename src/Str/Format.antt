-- ===== src/Str/Format.antt =====
-- The string that append_number appends.
pub mod Text
use mathlib.Core.List.{append_assoc, append-nil}
use evos.Base.{
  leb, ap₂, ◌&&◌, ◌==◌, ◌+◌, ℕ, suc, ◌-◌, ◌^◌, ◌≤◌, ◌<◌, ◌≡◌, refl, ap, ◌∙◌, ◌⊎◌, inl, inr, Bool,
  true, false, ◌||◌, List, [], ◌∷◌, ◌++◌, map, All, ok, fault, arith, ltb, if◌then◌else◌, length,
  length-append, replicate, Bool-cases,
}
use evos.Base.Digits.{value_from}
use evos.Str.{
  Flags, digit_char, number_loop, prefix_chars, is_negative, magnitude, finish_number,
  append_number,
}
use evos.Str.Format.Text.{number_text, distance_from_zero, prefix_lem, digits_lem, magnitude_shown}
use evos.Str.NumberLoop.{number_loop-IsNumber}

-- The string that a value is printed as: sign, prefix, digits, and blanks behind them.
abbrev pub printed : ℕ → ℕ → Flags → List ℕ → ℕ → List ℕ
printed value radix flags ds blanks =
    (if is_negative flags value then 45 ∷ [] else [])
    ++ ((if flags.show_prefix then prefix_chars radix else [])
        ++ (map digit_char ds ++ replicate blanks (if flags.zero_padded then 48 else 32)))

printed-number_text :
    (value radix : ℕ) (flags : Flags) (ds : List ℕ) (blanks : ℕ)
    → printed value radix flags ds blanks ≡ number_text value radix flags ds blanks
unfolding is_negative
printed-number_text value radix flags ds blanks = rw (prefix_lem radix, digits_lem ds) refl

sign_length : (b : Bool) → length {A = ℕ} (if b then 45 ∷ [] else []) ≤ 1
sign_length true = omega arith
sign_length false = omega arith

prefix_length : (b : Bool) (radix : ℕ) → length (if b then prefix_chars radix else []) ≤ 2
unfolding prefix_chars
prefix_length b radix = ground arith

length-map : (ds : List ℕ) → length (map digit_char ds) ≡ length ds
length-map [] = refl
length-map (d ∷ ds) = ap suc (length-map ds)

magnitude_lt : (flags : Flags) (value : ℕ) → value < 2 ^ 32 → magnitude flags value < 2 ^ 62
unfolding magnitude
magnitude_lt flags value h = ground arith

finish_number_lem :
    (str : List ℕ) (value radix : ℕ) (flags : Flags) (ds : List ℕ) (blanks : ℕ)
    → length ds ≤ 62
    → (flags.left_align ≡ false → blanks ≡ 0)
    → finish_number str value radix flags (map digit_char ds, blanks)
      ≡ ok (str ++ printed value radix flags ds blanks)
unfolding finish_number is_negative
finish_number_lem str value radix flags ds blanks few none_behind =
    elim (Bool-cases flags.left_align) [
      | inl e ↦
          rw (e, fits)
            (ap (λ t. ok (str ++ t))
              (glue (map digit_char ds) (replicate blanks (if flags.zero_padded then 48 else 32))))
      | inr e ↦ rw (e, none_behind e, fits) (ap (λ t. ok (str ++ t)) (glue (map digit_char ds) []))
    ]
  where
    sign : List ℕ
    sign = if is_negative flags value then 45 ∷ [] else []

    prefix : List ℕ
    prefix = if flags.show_prefix then prefix_chars radix else []

    glue :
        (digits pad : List ℕ)
        → sign ++ (prefix ++ digits) ++ pad ≡ sign ++ (prefix ++ (digits ++ pad))
    glue digits pad =
        append_assoc sign (prefix ++ digits) pad
        ∙ ap (λ t. sign ++ t) (append_assoc prefix digits pad)

    fits : ltb 65 (length (sign ++ (prefix ++ map digit_char ds))) ≡ false
    fits = ground (
      arith,
      length-append sign (prefix ++ map digit_char ds),
      length-append prefix (map digit_char ds),
      sign_length (is_negative flags value),
      prefix_length flags.show_prefix radix,
      length-map ds,
    )

-- What append_number leaves, with the code's own words for the parts.
pub append_number-printed :
    (str : List ℕ) (value radix : ℕ) (flags : Flags) (width : ℕ)
    → value < 2 ^ 32
    → 2 ≤ radix
    → radix ≤ 16
    → width ≤ 62
    → (ds : List ℕ) × (blanks : ℕ) × (append_number str value radix flags width
        ≡ ok (str ++ printed value radix flags ds blanks))
      × (value_from radix 0 ds ≡ magnitude flags value)
      × All (λ d. d < radix) ds
      × (1 ≤ length ds)
      × (blanks ≡ width - length ds)
      × (flags.left_align ≡ false → width ≤ length ds)
      × (length ds ≤ 62)
unfolding append_number
append_number-printed str value radix flags width word two sixteen narrow =
    let (ds, written, number, small, one, few, room, padded) =
      number_loop-IsNumber 62 64 (magnitude flags value) radix flags.left_align width []
        (omega arith) (omega arith) two (magnitude_lt flags value word) narrow in
    (
      ds,
      (number_loop 64 (magnitude flags value) radix flags.left_align width []).1,
      rw (in_range, unclamped)
          (ap
              (λ t.
                finish_number str value radix flags
                  (t, (number_loop 64 (magnitude flags value) radix flags.left_align width []).1))
              (written ∙ append-nil (map digit_char ds))
            ∙ finish_number_lem str value radix flags ds
                (number_loop 64 (magnitude flags value) radix flags.left_align width []).1 few
                padded),
      number,
      small,
      one,
      room,
      (λ e. omega (arith, padded e, room)),
      few,
    )
  where
    in_range : (ltb radix 2 || ltb 16 radix) ≡ false
    in_range = ground arith

    unclamped : (if ltb 64 width then 64 else width) ≡ width
    unclamped = ground arith

-- append_number, for a radix from 2 to 16, a 32-bit value and a width of at most 62: it always
-- finishes within its buffer, and appends a sign for a negative value of a signed conversion, the
-- prefix if it is asked for, at most 62 digits below the radix that stand for the magnitude of the
-- value, and padding that makes digits and padding as wide as the width; the padding stands behind
-- the digits, and there is none without LEFT_ALIGN, where the digits alone reach the width.
pub append_number_lem :
    (str : List ℕ) (value radix : ℕ) (flags : Flags) (width : ℕ)
    → value < 2 ^ 32
    → 2 ≤ radix
    → radix ≤ 16
    → width ≤ 62
    → (ds : List ℕ) × (blanks : ℕ) × (append_number str value radix flags width
        ≡ ok (str ++ number_text value radix flags ds blanks))
      × (value_from radix 0 ds ≡ distance_from_zero flags value)
      × All (λ d. d < radix) ds
      × (1 ≤ length ds)
      × (blanks ≡ width - length ds)
      × (flags.left_align ≡ false → width ≤ length ds)
      × (length ds ≤ 62)
append_number_lem str value radix flags width word two sixteen narrow =
    let (ds, blanks, run, stands, small, one, room, wide, few) =
      append_number-printed str value radix flags width word two sixteen narrow in
    (
      ds,
      blanks,
      run ∙ ap (λ t. ok (str ++ t)) (printed-number_text value radix flags ds blanks),
      stands ∙ magnitude_shown flags value word,
      small,
      one,
      room,
      wide,
      few,
    )

two_prefix_chars : (radix : ℕ) → (radix ≡ 2) ⊎ (radix ≡ 16) → length (prefix_chars radix) ≡ 2
unfolding prefix_chars
two_prefix_chars radix base = ground arith

finish_number_overflow :
    (str : List ℕ) (value radix : ℕ) (flags : Flags) (out : List ℕ) (blanks : ℕ)
    → length (prefix_chars radix) ≡ 2
    → flags.show_prefix ≡ true
    → 64 ≤ length out
    → finish_number str value radix flags (out, blanks) ≡ fault
unfolding finish_number
finish_number_overflow str value radix flags out blanks two shown long = rw over refl
  where
    front : List ℕ
    front = if flags.left_align then [] else replicate blanks (if flags.zero_padded then 48 else 32)

    sign : List ℕ
    sign = if is_negative flags value then 45 ∷ [] else []

    prefix : List ℕ
    prefix = if flags.show_prefix then prefix_chars radix else []

    prefix_two : length prefix ≡ 2
    prefix_two = ground arith

    over : ltb 65 (length (front ++ (sign ++ (prefix ++ out)))) ≡ true
    over = ground (
      arith,
      prefix_two,
      length-append front (sign ++ (prefix ++ out)),
      length-append sign (prefix ++ out),
      length-append prefix out,
    )

-- For a 32-bit value and a width of 64 or more, without LEFT_ALIGN, with the prefix of base 16 or
-- 2, append_number overruns its buffer: the digits fill the 64 chars of the width, and the prefix
-- does not fit behind them in 65.
pub append_number_overflow :
    (str : List ℕ) (value radix : ℕ) (flags : Flags) (width : ℕ)
    → value < 2 ^ 32
    → (radix ≡ 2) ⊎ (radix ≡ 16)
    → flags.show_prefix ≡ true
    → flags.left_align ≡ false
    → 64 ≤ width
    → append_number str value radix flags width ≡ fault
unfolding append_number
append_number_overflow str value radix flags width word base shown right wide =
    let (ds, written, number, small, one, few, room, padded) =
      number_loop-IsNumber 64 64 (magnitude flags value) radix flags.left_align 64 [] (omega arith)
        (omega arith) (omega arith) (omega (arith, magnitude_lt flags value word)) (omega arith) in
    let out = number_loop 64 (magnitude flags value) radix flags.left_align 64 [] in
    let full : 64 ≤ length ds = omega (arith, padded right, room) in
    let long : 64 ≤ length out.0 =
      omega (arith, full, length-map ds, ap length (written ∙ append-nil (map digit_char ds))) in
    rw (in_range, clamped)
      (finish_number_overflow str value radix flags out.0 out.1 (two_prefix_chars radix base) shown
        long)
  where
    in_range : (ltb radix 2 || ltb 16 radix) ≡ false
    in_range = ground arith

    clamped : (if ltb 64 width then 64 else width) ≡ 64
    clamped = ground arith
