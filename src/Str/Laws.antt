-- ===== src/Str/Laws.antt =====
-- Strings: their comparison, the parser of field widths and the printer of numbers.

use evos.Base.{
  ℕ, ◌+◌, ◌-◌, ◌*◌, ◌^◌, ◌≤◌, ◌<◌, ◌≡◌, ◌↔◌, refl, ap₂, Bool, true, false, List, [], ◌∷◌, ◌++◌, map,
  All, arith, ℕ_discrete, u32,
}
use evos.Base.Digits.{value_from}
use evos.Str.{is_digit, strcmp, skip_atoi}

-- The bytes of a string: the terminating zero is not among them.
abbrev pub IsByte : ℕ → Type 0
IsByte c = (0 < c) × (c < 256)

-- For strings of bytes other than zero, `strcmp` is zero exactly when they are equal.
pub strcmp_iff : (a b : List ℕ) → All IsByte a → All IsByte b → (strcmp a b ≡ 0) ↔ (a ≡ b)
unfolding strcmp
strcmp_iff [] [] h k = (λ e. refl, λ e. refl)
strcmp_iff [] (y ∷ b) h (k, ks) = (λ e. absurd (ground arith), λ e. absurd cc)
strcmp_iff (x ∷ a) [] (h, hs) k = (λ e. absurd (ground arith), λ e. absurd cc)
strcmp_iff (x ∷ a) (y ∷ b) (h, hs) (k, ks) = elim (ℕ_discrete x y) [
  | yes e ↦
      let rest = strcmp_iff a b hs ks in
      (
        λ z. ap₂ (λ u v. u ∷ v) e (rest.0 (ground arith)),
        λ z. let tails : a ≡ b = cc in ground (arith, rest.1 tails),
      )
  | no ne ↦ (λ z. absurd (ground arith), λ z. absurd (ne cc))
]

-- Decimal digits in front of a string that does not start with one.
abbrev pub starts_with_digit : List ℕ → Bool
starts_with_digit [] = false
starts_with_digit (c ∷ str) = is_digit c

value_from_le : (acc : ℕ) (ds : List ℕ) → acc ≤ value_from 10 acc ds
value_from_le acc [] = omega arith
value_from_le acc (d ∷ ds) = omega (arith, value_from_le (acc * 10 + d) ds)

skip_atoi_from :
    (ds : List ℕ) (rest : List ℕ) (target : ℕ)
    → All (λ d. d < 10) ds
    → starts_with_digit rest ≡ false
    → value_from 10 target ds < 2 ^ 32
    → skip_atoi (map (λ d. 48 + d) ds ++ rest) target ≡ (rest, value_from 10 target ds)
unfolding skip_atoi
skip_atoi_from [] [] target small stop room = refl
skip_atoi_from [] (c ∷ rest) target small stop room = rw stop refl
skip_atoi_from (d ∷ ds) rest target (here, small) stop room =
    let below = value_from_le (target * 10 + d) ds in
    let digit : is_digit (48 + d) ≡ true = ground arith in
    let kept : u32 (target * 10 + (48 + d - 48)) ≡ target * 10 + d = omega (arith, below) in
    rw (digit, kept) (skip_atoi_from ds rest (target * 10 + d) small stop room)

-- In front of a string that does not start with a digit, `skip_atoi` reads the number that decimal
-- digits stand for, if it fits in 32 bits, and leaves the string.
pub skip_atoi_lem :
    (ds : List ℕ) (rest : List ℕ)
    → All (λ d. d < 10) ds
    → starts_with_digit rest ≡ false
    → value_from 10 0 ds < 2 ^ 32
    → skip_atoi (map (λ d. 48 + d) ds ++ rest) 0 ≡ (rest, value_from 10 0 ds)
skip_atoi_lem ds rest small stop room = skip_atoi_from ds rest 0 small stop room
