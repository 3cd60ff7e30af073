-- ===== src/Monitor/Numbers.antt =====
-- The numbers that monitor_write_hex and monitor_write_dec print.
use native.Mathlib.Nat.{pow-suc}
use evos.Base.{
  ℕ, zero, suc, ◌+◌, ◌*◌, ◌/◌, ◌%◌, ◌^◌, ◌<◌, ◌≡◌, ◌≢◌, refl, ap, ◌∙◌, inl, inr, true, false, List,
  [], ◌∷◌, map, All, ◌>>=◌, second_part, arith, ◌==◌, length, Bool-cases, ℕ_discrete, get_or,
}
use evos.Base.Digits.{
  value_from, digits_of, quotient_step, value_from_zero, digits_of-All, length-digits_of,
}
use evos.Monitor.{
  Monitor, put, write, hex_letter, write_nibbles, write_hex, write_decimals, write_dec,
}

power_of_16 : (count : ℕ) → 2 ^ (4 * count) ≡ 16 ^ count
power_of_16 zero = refl
power_of_16 (suc count) =
    ap (λ (k : ℕ). 2 ^ k) {x = 4 * suc count} {y = suc (suc (suc (suc (4 * count))))} (omega arith)
    ∙ omega (
      arith,
      power_of_16 count,
      pow-suc 16 count,
      pow-suc 2 (4 * count),
      pow-suc 2 (suc (4 * count)),
      pow-suc 2 (suc (suc (4 * count))),
      pow-suc 2 (suc (suc (suc (4 * count)))),
    )

write_nibbles_lem :
    (m : Monitor) (value count : ℕ)
    → write_nibbles m value count ≡ write m (map hex_letter (digits_of 16 value count))
unfolding write_nibbles write
write_nibbles_lem m value zero = refl
write_nibbles_lem m value (suc count) = rw (power_of_16 count) (
    second_part (put m (hex_letter (value / 16 ^ count % 16)))
      (λ next. write_nibbles next value count)
      (λ next. write next (map hex_letter (digits_of 16 value count)))
      (λ next. write_nibbles_lem next value count))

-- `monitor_write_hex` writes the eight digits of a 32-bit value in base 16, the most significant
-- first.
pub write_hex_lem :
    (m : Monitor) (value : ℕ)
    → value < 2 ^ 32
    → (digits : List ℕ) × (write_hex m value ≡ write m (map hex_letter digits))
      × (length digits ≡ 8)
      × All (λ d. d < 16) digits
      × (value_from 16 0 digits ≡ value)
unfolding write_hex
write_hex_lem m value h =
    let top : value / 16 ^ 8 ≡ 0 = omega arith in
    (
      digits_of 16 value 8,
      write_nibbles_lem m value 8,
      length-digits_of 16 value 8,
      digits_of-All 16 value 8 (omega arith),
      value_from_zero 16 value 8 top,
    )

-- Behind the first digit, every digit is written.
write_decimals_lem :
    (m : Monitor) (value count : ℕ)
    → write_decimals m value count true ≡ write m (map (λ d. 48 + d) (digits_of 10 value count))
unfolding write_decimals write
write_decimals_lem m value zero = refl
write_decimals_lem m value (suc count) =
    let rest =
      second_part (put m (48 + value / 10 ^ count % 10))
        (λ next. write_decimals next value count true)
        (λ next. write next (map (λ d. 48 + d) (digits_of 10 value count)))
        (λ next. write_decimals_lem next value count) in
    elim (Bool-cases (value / 10 ^ count % 10 == 0)) [
      | inl e ↦ rw (write_decimals, e) rest
      | inr e ↦ rw (write_decimals, e) rest
    ]

digit_skipped :
    (m : Monitor) (value count : ℕ)
    → value / 10 ^ suc count % 10 ≡ 0
    → write_decimals m value (suc (suc count)) false ≡ write_decimals m value (suc count) false
unfolding write_decimals
digit_skipped m value count e = ground arith

digit_written :
    (m : Monitor) (value count : ℕ)
    → value / 10 ^ count % 10 ≢ 0
    → write_decimals m value (suc count) false
      ≡ (put m (48 + value / 10 ^ count % 10) >>= λ next. write_decimals next value count true)
unfolding write_decimals
digit_written m value count ne = ground arith

-- In front of the first digit, zeros are skipped.
leading_zeros :
    (m : Monitor) (value count : ℕ)
    → value / 10 ^ suc count ≡ 0
    → (digits : List ℕ) × (write_decimals m value (suc count) false
        ≡ write m (map (λ d. 48 + d) digits))
      × All (λ d. d < 10) digits
      × (value_from 10 0 digits ≡ value)
      × (get_or digits 0 0 ≡ 0 → digits ≡ 0 ∷ [])
unfolding write_decimals write
leading_zeros m value zero top =
    let digit : value / 10 ^ 0 / 10 ≡ 0 = quotient_step 10 value 0 ∙ top in
    (
      value / 10 ^ 0 % 10 ∷ [],
      elim (Bool-cases (value / 10 ^ 0 % 10 == 0)) [
        | inl e ↦ rw (write_decimals, e) refl
        | inr e ↦ rw (write_decimals, e) refl
      ],
      (omega arith, tt),
      omega arith,
      λ e. rw e refl,
    )
leading_zeros m value (suc count) top = elim (ℕ_discrete (value / 10 ^ suc count % 10) 0) [
  | yes e ↦
      rw (digit_skipped m value count e)
        (leading_zeros m value count (omega (arith, quotient_step 10 value (suc count))))
  | no ne ↦ (
    digits_of 10 value (suc (suc count)),
    digit_written m value (suc count) ne
        ∙ second_part (put m (48 + value / 10 ^ suc count % 10))
            (λ next. write_decimals next value (suc count) true)
            (λ next. write next (map (λ d. 48 + d) (digits_of 10 value (suc count))))
            (λ next. write_decimals_lem next value (suc count)),
    digits_of-All 10 value (suc (suc count)) (omega arith),
    value_from_zero 10 value (suc (suc count)) top,
    λ z. absurd (ne z),
  )
]

-- `monitor_write_dec` writes a 32-bit value in base 10 without leading zeros; 0 is written as one
-- digit.
pub write_dec_lem :
    (m : Monitor) (value : ℕ)
    → value < 2 ^ 32
    → (digits : List ℕ) × (write_dec m value ≡ write m (map (λ d. 48 + d) digits))
      × All (λ d. d < 10) digits
      × (value_from 10 0 digits ≡ value)
      × (get_or digits 0 0 ≡ 0 → digits ≡ 0 ∷ [])
unfolding write_dec
write_dec_lem m value h = leading_zeros m value 9 (omega arith)
