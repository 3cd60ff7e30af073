-- ===== src/Str/Vsprintf/Shown.antt =====
-- What the conversion of a single field appends.

use evos.Base.{
  ℕ, ◌-◌, ◌%◌, ◌^◌, ◌≤◌, ◌<◌, ◌≡◌, refl, ap, ◌∙◌, Bool, true, false, ◌||◌, List, [], ◌∷◌, ◌++◌, map,
  ok, arith, leb, ◌==◌, if◌then◌else◌, length, replicate, Bool-cases, inl, inr, sub32,
}
use evos.Str.{Flags, strlen, is_negative, magnitude, prefix_chars}
use evos.Str.Format.Text.{digits_lem}
use evos.Str.Format.{printed, append_number-printed}
use evos.Str.Vsprintf.{Arg, number, text, no_flags, positive, convert, convert_number, convert_text}
use evos.Str.Vsprintf.Laws.{all_flags}
use evos.Str.Vsprintf.Items.{
  Mark, to_left, with_zeros, with_prefix, mark_char, is_left, is_zeros, is_prefix, NumberBase,
  decimal, unsigned, hex, octal, binary, pointer, base_char, IsOther, IsNumeral, pad_of, prefix_of,
  IsBased,
}

-- The flags that the marks set.
abbrev flags_of : List Mark → Flags → Flags
flags_of marks start = record start {
  zero_padded = is_zeros marks || start.zero_padded;
  left_align = is_left marks || start.left_align;
  show_prefix = is_prefix marks || start.show_prefix;
}

or_true : (b : Bool) → (b || true) ≡ true
or_true true = refl
or_true false = refl

all_flags_lem :
    (marks : List Mark) (start : Flags)
    → all_flags (map mark_char marks) start ≡ flags_of marks start
all_flags_lem [] start = refl
all_flags_lem (to_left ∷ marks) start =
    all_flags_lem marks (record start { left_align = true })
    ∙ ap (λ b. record (flags_of marks start) { left_align = b }) (or_true (is_left marks))
all_flags_lem (with_zeros ∷ marks) start =
    all_flags_lem marks (record start { zero_padded = true })
    ∙ ap (λ b. record (flags_of marks start) { zero_padded = b }) (or_true (is_zeros marks))
all_flags_lem (with_prefix ∷ marks) start =
    all_flags_lem marks (record start { show_prefix = true })
    ∙ ap (λ b. record (flags_of marks start) { show_prefix = b }) (or_true (is_prefix marks))

or_false : (b : Bool) → (b || false) ≡ b
or_false true = refl
or_false false = refl

-- The flags of a field.
abbrev pub marked : List Mark → Flags
marked marks = record {
  signed = false;
  zero_padded = is_zeros marks;
  left_align = is_left marks;
  show_prefix = is_prefix marks;
}

pub marked_lem : (marks : List Mark) → all_flags (map mark_char marks) no_flags ≡ marked marks
marked_lem marks =
    all_flags_lem marks no_flags
    ∙ rw (or_false (is_zeros marks), or_false (is_left marks), or_false (is_prefix marks)) refl

numeral_lem :
    (str : List ℕ) (args : List Arg) (value radix width : ℕ) (marks : List Mark) (flags : Flags)
    (sign prefix : List ℕ) (pad stands : ℕ)
    → value < 2 ^ 32
    → 2 ≤ radix
    → radix ≤ 16
    → width ≤ 62
    → flags.left_align ≡ is_left marks
    → (if is_negative flags value then 45 ∷ [] else []) ≡ sign
    → (if flags.show_prefix then prefix_chars radix else []) ≡ prefix
    → (if flags.zero_padded then 48 else 32) ≡ pad
    → magnitude flags value ≡ stands
    → (shown : List ℕ) × (convert_number radix flags width (number value ∷ args) str
        ≡ ok (args, str ++ shown))
      × IsNumeral marks width radix sign prefix pad stands shown
unfolding convert_number
numeral_lem str args value radix width marks flags sign prefix pad stands word two sixteen narrow
      left signed prefixed padded number_of =
    let (ds, blanks, run, total, small, one, room, wide, few) =
      append_number-printed str value radix flags width word two sixteen narrow in
    let same_width : positive width ≡ width = ground arith in
    (
      printed value radix flags ds blanks,
      rw (same_width, run) refl,
      record {
        ds = ds;
        blanks = blanks;
        parts =
            rw (signed, prefixed, padded)
              (ap (λ cs. sign ++ (prefix ++ (cs ++ replicate blanks pad))) (digits_lem ds));
        stands = total ∙ number_of;
        small = small;
        one = one;
        few = few;
        filled = room;
        wide = λ e. wide (left ∙ e);
      },
    )

no_prefix : (b : Bool) → ◌≡◌ {A = List ℕ} (if b then [] else []) []
no_prefix true = refl
no_prefix false = refl

module _ (str : List ℕ) (args : List Arg) (marks : List Mark) (width value : ℕ)
    (narrow : width ≤ 62) (word : value < 2 ^ 32) where
  abbrev pub Shows : NumberBase → Type 0
  Shows base =
      (shown : List ℕ) × (convert (base_char base) (marked marks) width (number value ∷ args) str
        ≡ ok (args, str ++ shown))
      × IsBased base marks width value shown

  decimal_shown : Shows decimal
  unfolding convert is_negative magnitude prefix_chars
  decimal_shown =
      let flags = record (marked marks) { signed = true } in
      elim (Bool-cases (leb (2 ^ 31) value)) [
        | inl negative ↦
            let below : sub32 0 value ≡ 2 ^ 32 - value = ground arith in
            let (shown, run, in_base) =
              numeral_lem str args value 10 width marks flags (45 ∷ []) [] (pad_of marks)
                (2 ^ 32 - value) word (omega arith) (omega arith) narrow refl (rw negative refl)
                (no_prefix (is_prefix marks)) refl (rw negative below) in
            (shown, run, rw negative in_base)
        | inr positive ↦
            let (shown, run, in_base) =
              numeral_lem str args value 10 width marks flags [] [] (pad_of marks) value word
                (omega arith) (omega arith) narrow refl (rw positive refl)
                (no_prefix (is_prefix marks)) refl (rw positive refl) in
            (shown, run, rw positive in_base)
      ]

  pub based_lem : (base : NumberBase) → Shows base
  unfolding convert is_negative magnitude prefix_chars
  based_lem decimal = decimal_shown
  based_lem unsigned =
      numeral_lem str args value 10 width marks (marked marks) [] [] (pad_of marks) value word
        (omega arith) (omega arith) narrow refl refl (no_prefix (is_prefix marks)) refl refl
  based_lem hex =
      numeral_lem str args value 16 width marks (marked marks) [] (prefix_of marks (48 ∷ 120 ∷ []))
        (pad_of marks) value word (omega arith) (omega arith) narrow refl refl refl refl refl
  based_lem octal =
      numeral_lem str args value 8 width marks (marked marks) [] (prefix_of marks (48 ∷ []))
        (pad_of marks) value word (omega arith) (omega arith) narrow refl refl refl refl refl
  based_lem binary =
      numeral_lem str args value 2 width marks (marked marks) [] (prefix_of marks (48 ∷ 98 ∷ []))
        (pad_of marks) value word (omega arith) (omega arith) narrow refl refl refl refl refl
  based_lem pointer =
      let flags = record (marked marks) { zero_padded = true; show_prefix = true } in
      let enough : (if width == 0 then 8 else width) ≤ 62 = ground arith in
      numeral_lem str args value 16 (if width == 0 then 8 else width) marks flags [] (48 ∷ 120 ∷ [])
        48 value word (omega arith) (omega arith) enough refl refl refl refl refl

-- A string, a conversion without a meaning, and a char.
pub text_lem :
    (str cs : List ℕ) (args : List Arg) (marks : List Mark) (width : ℕ)
    → width ≤ 62
    → convert 115 (marked marks) width (text cs ∷ args) str
      ≡ ok (
        args,
        str
            ++ (if is_left marks
                then cs ++ replicate (width - length cs) 32
                else replicate (width - length cs) 32 ++ cs),
      )
unfolding convert convert_text strlen
text_lem str cs args marks width narrow =
    let same_width : positive width ≡ width = ground arith in rw same_width refl

pub other_lem :
    (str : List ℕ) (args : List Arg) (flags : Flags) (width c : ℕ)
    → IsOther c
    → convert c flags width args str ≡ ok (args, str ++ c ∷ [])
unfolding convert
other_lem str args flags width c (n1, n2, n3, n4, n5, n6, n7, n8, n9, n10, n11, no_digit) =
    ground arith

pub letter_lem :
    (str : List ℕ) (args : List Arg) (flags : Flags) (width value : ℕ)
    → convert 99 flags width (number value ∷ args) str ≡ ok (args, str ++ value % 256 ∷ [])
unfolding convert
letter_lem str args flags width value = refl
