-- ===== src/Bitset/Laws.antt =====
-- The words of a bitset as a set of numbers.
use Prim.Native.Nat.{bit_and-bitwise, bit_or-bitwise}
use native.Mathlib.Nat.{pow-suc, one-le-pow, pow-le-pow_right}
use evos.Base.{
  ℕ, zero, suc, ◌-◌, ◌*◌, ◌/◌, ◌%◌, ◌^◌, ◌≤◌, ◌<◌, ◌≡◌, refl, ap, ◌∙◌, ◌↔◌, List, [], ◌∷◌, arith,
  leb, ◌==◌, ◌&&◌, ltb, if◌then◌else◌, length, get_or, set, length-set, bit_and, bit_or, ℕ_discrete,
  Bool-cases, inl, inr,
}
use evos.Base.Bits.{
  bit, bit-le-one, bit-bit_or, bit-bit_and, bit-pow_self, bit-pow_ne, bit_complement, bit_and-pow,
  bit_or_unroll, bit_and_unroll, bit-zero,
}
use evos.Bitset.{Bitset, set_bit, clear_bit, check_set}

-- 1 for a member, 0 for any other number
abbrev pub digit : Bitset → ℕ → ℕ
digit s i = bit (get_or s.base (i / 32) 0) (i % 32)

pub record IsValid (s : Bitset) : Type 0 where
  pub counted : s.size ≡ length s.base
  pub small : s.size < 2 ^ 27
  pub words : (k : ℕ) → get_or s.base k 0 < 2 ^ 32

zero-bit_and : (b : ℕ) → bit_and 0 b ≡ 0
zero-bit_and b = bit_and-bitwise 0 b

bit_or-lt : (n a b : ℕ) → a < 2 ^ n → b < 2 ^ n → bit_or a b < 2 ^ n
bit_or-lt zero zero zero p q = omega (arith, bit_or-bitwise 0 0)
bit_or-lt zero zero (suc b) p q = absurd (omega arith)
bit_or-lt zero (suc a) b p q = absurd (omega arith)
bit_or-lt (suc n) a b p q = omega (
  arith,
  bit_or_unroll a b,
  pow-suc 2 n,
  bit_or-lt n (a / 2) (b / 2) (omega (arith, pow-suc 2 n)) (omega (arith, pow-suc 2 n)),
)

pow-lt : (k : ℕ) → k < 32 → 2 ^ k < 2 ^ 32
pow-lt k h = omega (arith, pow-le-pow_right {n = 2} (omega arith) {i = k} {j = 31} (omega arith))

bit_and-le : (n a b : ℕ) → a ≤ n → bit_and a b ≤ a
bit_and-le n zero b h = omega (arith, zero-bit_and b)
bit_and-le zero (suc a) b h = absurd (omega arith)
bit_and-le (suc n) (suc a) b h =
    omega (arith, bit_and_unroll (suc a) b, bit_and-le n (suc a / 2) (b / 2) (omega arith))

one-mul : {n : ℕ} → 1 * n ≡ n
one-mul = omega arith

-- `w | (1 << k)` and `w & ~(1 << k)`, digit by digit
bit-set_digit : (w k m : ℕ) → bit (bit_or w (1 * 2 ^ k)) m ≡ (if k == m then 1 else bit w m)
bit-set_digit w k m = elim (ℕ_discrete k m) [
  | yes e ↦ rw e (
      ground (
        arith,
        bit-bit_or m w (1 * 2 ^ m),
        bit-pow_self m,
        bit-le-one w m,
        ap (λ n. bit n m) (one-mul {n = 2 ^ k}),
      ))
  | no ne ↦ ground (
    arith,
    bit-bit_or m w (1 * 2 ^ k),
    bit-pow_ne k m ne,
    ap (λ n. bit n m) (one-mul {n = 2 ^ k}),
  )
]

bit-clear_digit :
    (w k m : ℕ)
    → k < 32
    → m < 32
    → bit (bit_and w (2 ^ 32 - 1 - 2 ^ k)) m ≡ (if k == m then 0 else bit w m)
bit-clear_digit w k m h p = elim (ℕ_discrete k m) [
  | yes e ↦ ground (
    arith,
    bit-bit_and m w (2 ^ 32 - 1 - 2 ^ k),
    bit_complement m 32 (2 ^ k) (pow-lt k h) p,
    bit-pow_self m,
    ap (λ n. bit (2 ^ n) m) e,
  )
  | no ne ↦ ground (
    arith,
    bit-bit_and m w (2 ^ 32 - 1 - 2 ^ k),
    bit_complement m 32 (2 ^ k) (pow-lt k h) p,
    bit-pow_ne k m ne,
    bit-le-one w m,
  )
]

get_or-set :
    (xs : List ℕ) (i j v : ℕ)
    → get_or (set xs i v) j 0 ≡ (if i == j && ltb i (length xs) then v else get_or xs j 0)
get_or-set [] i j v = ground arith
get_or-set (x ∷ xs) zero zero v = ground arith
get_or-set (x ∷ xs) zero (suc j) v = ground arith
get_or-set (x ∷ xs) (suc i) zero v = ground arith
get_or-set (x ∷ xs) (suc i) (suc j) v = ground (arith, get_or-set xs i j v)

eq_zero_of_mul : (b p : ℕ) → b * p ≡ 0 → 1 ≤ p → b ≡ 0
eq_zero_of_mul zero p e h = refl
eq_zero_of_mul (suc b) p e h = absurd (grind arith)

get_or_past : (xs : List ℕ) (i : ℕ) → length xs ≤ i → get_or xs i 0 ≡ 0
get_or_past [] i h = refl
get_or_past (x ∷ xs) zero h = absurd (omega arith)
get_or_past (x ∷ xs) (suc i) h = get_or_past xs i (omega arith)

module _ {s : Bitset} (v : IsValid s) where
  update-IsValid : (k w : ℕ) → w < 2 ^ 32 → IsValid (record s { base = set s.base k w })
  update-IsValid k w h = record {
    counted = omega (arith, v.counted, length-set {0} s.base k w);
    small = v.small;
    words = λ m. ground (arith, get_or-set s.base k m w, v.words m);
  }

  -- `bitset_check_set` is zero exactly for the numbers that are not members.
  pub check_set_iff : (i : ℕ) → (check_set s i ≡ 0) ↔ (digit s i ≡ 0)
  unfolding check_set
  check_set_iff i = ground (
    arith,
    bit_and-pow (i % 32) (get_or s.base (i / 32) 0),
    outside,
    one-le-pow (i % 32) 2,
    shifted,
    eq_zero_of_mul (bit (get_or s.base (i / 32) 0) (i % 32)) (2 ^ (i % 32)),
  )
    where
      outside : s.size ≤ i / 32 → digit s i ≡ 0
      outside h =
          ap (λ w. bit w (i % 32)) (get_or_past s.base (i / 32) (omega (arith, v.counted)))
          ∙ bit-zero (i % 32)

      shifted :
          bit_and (get_or s.base (i / 32) 0) (1 * 2 ^ (i % 32))
          ≡ bit (get_or s.base (i / 32) 0) (i % 32) * 2 ^ (i % 32)
      shifted = rw one-mul (bit_and-pow (i % 32) (get_or s.base (i / 32) 0))

  -- `bitset_set` adds the number if it is in range, and changes no other.
  pub digit-set_bit :
      (i j : ℕ) → digit (set_bit s i) j ≡ (if i == j && ltb i (32 * s.size) then 1 else digit s j)
  unfolding set_bit
  digit-set_bit i j = ground (
    arith,
    v.counted,
    get_or-set s.base (i / 32) (j / 32) (bit_or (get_or s.base (i / 32) 0) (1 * 2 ^ (i % 32))),
    bit-set_digit (get_or s.base (i / 32) 0) (i % 32) (j % 32),
  )

  -- `bitset_clear` takes the number out, and changes no other.
  pub digit-clear_bit :
      (i j : ℕ) → digit (clear_bit s i) j ≡ (if i == j && ltb i (32 * s.size) then 0 else digit s j)
  unfolding clear_bit
  digit-clear_bit i j = ground (
    arith,
    v.counted,
    get_or-set s.base (i / 32) (j / 32)
        (bit_and (get_or s.base (i / 32) 0) (2 ^ 32 - 1 - 2 ^ (i % 32))),
    bit-clear_digit (get_or s.base (i / 32) 0) (i % 32) (j % 32),
  )

  pub set_bit-IsValid : (i : ℕ) → IsValid (set_bit s i)
  unfolding set_bit
  set_bit-IsValid i = elim (Bool-cases (leb s.size (i / 32))) [
    | inl out ↦ rw out v
    | inr within ↦ rw within (
        update-IsValid (i / 32) _ (
          bit_or-lt 32 (get_or s.base (i / 32) 0) (1 * 2 ^ (i % 32)) (v.words (i / 32))
            (omega (arith, pow-lt (i % 32) (omega arith)))))
  ]

  pub clear_bit-IsValid : (i : ℕ) → IsValid (clear_bit s i)
  unfolding clear_bit
  clear_bit-IsValid i = elim (Bool-cases (leb s.size (i / 32))) [
    | inl out ↦ rw out v
    | inr within ↦ rw within (
        update-IsValid (i / 32) _ (
          omega (
            arith,
            v.words (i / 32),
            bit_and-le (get_or s.base (i / 32) 0) (get_or s.base (i / 32) 0)
                (2 ^ 32 - 1 - 2 ^ (i % 32)),
          )))
  ]
