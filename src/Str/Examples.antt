-- ===== src/Str/Examples.antt =====
-- Strings and numbers at concrete inputs.
use evos.Base.{
  ℕ, ◌-◌, ◌^◌, ◌≤◌, ◌<◌, ◌≡◌, refl, Bool, true, false, List, [], ◌∷◌, All, ok, fault, arith, length,
  inr,
}
use evos.Base.Digits.{value_from}
use evos.Str.{Flags, number_loop, is_negative, magnitude, finish_number, append_number}
use evos.Str.Format.Text.{number_text, distance_from_zero}
use evos.Str.Format.{append_number_lem, append_number_overflow}

-- The flags of `%d`, and of `%p`.
abbrev decimal_flags : Flags
decimal_flags = record {
  signed = true;
  zero_padded = false;
  left_align = false;
  show_prefix = false;
}

abbrev pointer_flags : Flags
pointer_flags = record {
  signed = false;
  zero_padded = true;
  left_align = false;
  show_prefix = true;
}

-- "%5d" of -42 is "-00042".
minus_42 : append_number [] (2 ^ 32 - 42) 10 decimal_flags 5 ≡ ok (45 ∷ 48 ∷ 48 ∷ 48 ∷ 52 ∷ 50 ∷ [])
unfolding append_number number_loop magnitude is_negative finish_number
minus_42 = refl

append_number_lem_example :
    (ds : List ℕ) × (blanks : ℕ) × (append_number [] 0xBEEF 16 pointer_flags 8
      ≡ ok (number_text 0xBEEF 16 pointer_flags ds blanks))
    × (value_from 16 0 ds ≡ distance_from_zero pointer_flags 0xBEEF)
    × All (λ d. d < 16) ds
    × (1 ≤ length ds)
    × (blanks ≡ 8 - length ds)
    × (◌≡◌ {A = Bool} false false → 8 ≤ length ds)
    × (length ds ≤ 62)
append_number_lem_example =
    append_number_lem [] 0xBEEF 16 pointer_flags 8 (omega arith) (omega arith) (omega arith)
      (omega arith)

append_number_overflow_example : append_number [] 255 16 pointer_flags 64 ≡ fault
append_number_overflow_example =
    append_number_overflow [] 255 16 pointer_flags 64 (omega arith) (inr refl) refl refl
      (omega arith)
