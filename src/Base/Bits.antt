-- ===== src/Base/Bits.antt =====
-- The digit of a word at a position, and what `|`, `&` and `~` do to each digit.
use Prim.Native.Nat.{
  ℕ, zero, suc, ◌+◌, ◌-◌, ◌*◌, ◌/◌, ◌%◌, ◌^◌, ◌≤◌, ◌<◌, min, max, bit_and, bit_or, digits,
  bit_and-bitwise, bit_or-bitwise,
}
use mathlib.Core.Path.{◌≡◌, refl, sym, ap, ◌∙◌}
use mathlib.Core.Logic.{◌≢◌}
use native.Mathlib.Omega.{arith}
use native.Mathlib.Nat.{pow-suc, one-le-pow}

-- digit `k` of `x`, 0 or 1
abbrev pub bit : ℕ → ℕ → ℕ
bit x zero = x % 2
bit x (suc k) = bit (x / 2) k

module _ (rest : ℕ → ℕ) (join : ℕ → ℕ → ℕ) where
  digits-zero : (fuel y : ℕ) → digits rest join fuel 0 y ≡ rest y
  digits-zero zero y = refl
  digits-zero (suc fuel) y = refl

  -- Any fuel that reaches the first operand gives the same digits.
  same_digits :
      (x y fuel more : ℕ)
      → x ≤ fuel
      → x ≤ more
      → digits rest join fuel x y ≡ digits rest join more x y
  same_digits zero y fuel more enough also = digits-zero fuel y ∙ sym (digits-zero more y)
  same_digits (suc x) y zero more enough also = absurd (omega arith)
  same_digits (suc x) y (suc fuel) zero enough also = absurd (omega arith)
  same_digits (suc x) y (suc fuel) (suc more) enough also =
      ap (λ (high : ℕ). high * 2 + join (suc x % 2) (y % 2))
        (same_digits (suc x / 2) (y / 2) fuel more (omega arith) (omega arith))

pub bit_or_unroll : (x y : ℕ) → bit_or x y ≡ max (x % 2) (y % 2) + 2 * bit_or (x / 2) (y / 2)
bit_or_unroll zero y = simp bit_or-bitwise (omega arith)
bit_or_unroll (suc x) y =
    let high = same_digits (λ t. t) max (suc x / 2) (y / 2) x (suc x / 2) (omega arith) in
    simp bit_or-bitwise (omega (arith, high (omega arith)))

pub bit_and_unroll : (x y : ℕ) → bit_and x y ≡ min (x % 2) (y % 2) + 2 * bit_and (x / 2) (y / 2)
bit_and_unroll zero y = simp bit_and-bitwise (omega arith)
bit_and_unroll (suc x) y =
    let high = same_digits (λ t. 0) min (suc x / 2) (y / 2) x (suc x / 2) (omega arith) in
    simp bit_and-bitwise (omega (arith, high (omega arith)))

pub bit-le-one : (x k : ℕ) → bit x k ≤ 1
bit-le-one x zero = omega arith
bit-le-one x (suc k) = bit-le-one (x / 2) k

pub bit-bit_or : (k a b : ℕ) → bit (bit_or a b) k ≡ max (bit a k) (bit b k)
bit-bit_or zero a b = omega (arith, bit_or_unroll a b)
bit-bit_or (suc k) a b =
    ap (λ n. bit n k) (omega (arith, bit_or_unroll a b)) ∙ bit-bit_or k (a / 2) (b / 2)

pub bit-bit_and : (k a b : ℕ) → bit (bit_and a b) k ≡ min (bit a k) (bit b k)
bit-bit_and zero a b = omega (arith, bit_and_unroll a b)
bit-bit_and (suc k) a b =
    ap (λ n. bit n k) (omega (arith, bit_and_unroll a b)) ∙ bit-bit_and k (a / 2) (b / 2)

pub bit-zero : (k : ℕ) → bit 0 k ≡ 0
bit-zero zero = refl
bit-zero (suc k) = bit-zero k

half-pow : (k : ℕ) → 2 ^ suc k / 2 ≡ 2 ^ k
half-pow k = omega (arith, pow-suc 2 k)

pub bit-pow_self : (k : ℕ) → bit (2 ^ k) k ≡ 1
bit-pow_self zero = refl
bit-pow_self (suc k) = ap (λ n. bit n k) (half-pow k) ∙ bit-pow_self k

pub bit-pow_ne : (k j : ℕ) → k ≢ j → bit (2 ^ k) j ≡ 0
bit-pow_ne zero zero ne = absurd (ne refl)
bit-pow_ne zero (suc j) ne = bit-zero j
bit-pow_ne (suc k) zero ne = omega (arith, pow-suc 2 k)
bit-pow_ne (suc k) (suc j) ne = ap (λ n. bit n j) (half-pow k) ∙ bit-pow_ne k j (λ e. ne (ap suc e))

-- `~a` in `n` digits
pub bit_complement : (j n a : ℕ) → a < 2 ^ n → j < n → bit (2 ^ n - 1 - a) j ≡ 1 - bit a j
bit_complement j zero a h p = absurd (omega arith)
bit_complement zero (suc n) a h p = omega (arith, pow-suc 2 n)
bit_complement (suc j) (suc n) a h p =
    ap (λ m. bit m j) (omega (arith, pow-suc 2 n))
    ∙ bit_complement j n (a / 2) (omega (arith, pow-suc 2 n)) (omega arith)

-- A word with every digit 1 is the full mask.
pub eq_of_bits : (n a : ℕ) → a < 2 ^ n → ((j : ℕ) → j < n → bit a j ≡ 1) → a ≡ 2 ^ n - 1
eq_of_bits zero a h all = omega arith
eq_of_bits (suc n) a h all = omega (
  arith,
  pow-suc 2 n,
  all 0 (omega arith),
  one-le-pow n 2,
  eq_of_bits n (a / 2) (omega (arith, pow-suc 2 n)) (λ j p. all (suc j) (omega arith)),
)

-- The full mask has every digit 1.
pub bit-mask : (n j : ℕ) → j < n → bit (2 ^ n - 1) j ≡ 1
bit-mask zero j h = absurd (omega arith)
bit-mask (suc n) zero h = omega (arith, pow-suc 2 n, one-le-pow n 2)
bit-mask (suc n) (suc j) h =
    ap (λ m. bit m j) (omega (arith, pow-suc 2 n, one-le-pow n 2)) ∙ bit-mask n j (omega arith)

bit_and-zero : (n a : ℕ) → a ≤ n → bit_and a 0 ≡ 0
bit_and-zero n zero h = bit_and-bitwise 0 0
bit_and-zero zero (suc a) h = absurd (omega arith)
bit_and-zero (suc n) (suc a) h =
    omega (arith, bit_and_unroll (suc a) 0, bit_and-zero n (suc a / 2) (omega arith))

-- `x & (1 << k)` is the digit, shifted.
pub bit_and-pow : (k x : ℕ) → bit_and x (2 ^ k) ≡ bit x k * 2 ^ k
bit_and-pow zero x = omega (arith, bit_and_unroll x 1, bit_and-zero (x / 2) (x / 2) (omega arith))
bit_and-pow (suc k) x = ground (
  arith,
  bit_and_unroll x (2 ^ suc k),
  pow-suc 2 k,
  half-pow k,
  bit_and-pow k (x / 2),
  ap (λ (t : ℕ). bit (x / 2) k * t) (pow-suc 2 k),
)
