-- ===== src/Base/Digits.antt =====
-- Numbers in a base, the most significant digit first.
use Prim.Native.Nat.{ℕ, zero, suc, ◌+◌, ◌*◌, ◌/◌, ◌%◌, ◌^◌, ◌<◌}
use mathlib.Core.Path.{◌≡◌, refl, sym, ap, ◌∙◌}
use mathlib.Core.List.{List, [], ◌∷◌}
use native.Mathlib.Nat.{div-div-eq-div-mul, div-add-mod', div-one, mod-lt, pow-suc, pow-zero}
use evos.Base.Lists.{All, length}

abbrev pub value_from : ℕ → ℕ → List ℕ → ℕ
value_from base acc [] = acc
value_from base acc (d ∷ ds) = value_from base (acc * base + d) ds

-- The last `count` digits of a number.
abbrev pub digits_of : ℕ → ℕ → ℕ → List ℕ
digits_of base v zero = []
digits_of base v (suc count) = (v / base ^ count % base) ∷ digits_of base v count

pub quotient_step : (base v count : ℕ) → v / base ^ count / base ≡ v / base ^ suc count
quotient_step base v count =
    div-div-eq-div-mul v (base ^ count) base ∙ ap (λ t. v / t) (sym (pow-suc base count))

pub value_from-digits_of :
    (base v count : ℕ) → value_from base (v / base ^ count) (digits_of base v count) ≡ v
value_from-digits_of base v zero = ap (λ t. v / t) (pow-zero base) ∙ div-one v
value_from-digits_of base v (suc count) =
    ap (λ (t : ℕ). value_from base (t * base + v / base ^ count % base) (digits_of base v count))
      (sym (quotient_step base v count))
    ∙ ap (λ t. value_from base t (digits_of base v count)) (div-add-mod' (v / base ^ count) base)
    ∙ value_from-digits_of base v count

pub digits_of-All : (base v count : ℕ) → 0 < base → All (λ d. d < base) (digits_of base v count)
digits_of-All base v zero h = tt
digits_of-All base v (suc count) h = (mod-lt (v / base ^ count) h, digits_of-All base v count h)

pub length-digits_of : (base v count : ℕ) → length (digits_of base v count) ≡ count
length-digits_of base v zero = refl
length-digits_of base v (suc count) = ap suc (length-digits_of base v count)

-- All digits of a number are among its last `count`.
pub value_from_zero :
    (base v count : ℕ) → v / base ^ count ≡ 0 → value_from base 0 (digits_of base v count) ≡ v
value_from_zero base v count top =
    ap (λ t. value_from base t (digits_of base v count)) (sym top)
    ∙ value_from-digits_of base v count
