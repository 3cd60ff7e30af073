-- ===== src/Str/NumberLoop.antt =====
-- The first loop of append_number: the digits that it writes, and the width that it leaves.
use native.Mathlib.Nat.{pow-suc, div-add-mod', mod-lt, div-lt_iff_lt-mul}
use evos.Base.{
  ℕ, zero, suc, ◌+◌, ◌-◌, ◌*◌, ◌/◌, ◌%◌, ◌^◌, ◌≤◌, ◌<◌, ◌≡◌, refl, ap, ◌∙◌, inl, inr, Bool, true,
  false, not, ◌&&◌, ◌||◌, List, [], ◌∷◌, ◌++◌, map, All, All-append, arith, ltb, ◌==◌, length,
  length-append, Bool-cases,
}
use evos.Base.Digits.{value_from}
use evos.Str.{digit_char, number_loop}

value_from-snoc :
    (base acc d : ℕ) (ds : List ℕ)
    → value_from base acc (ds ++ d ∷ []) ≡ value_from base acc ds * base + d
value_from-snoc base acc d [] = refl
value_from-snoc base acc d (x ∷ ds) = value_from-snoc base (acc * base + x) d ds

map-snoc :
    (d : ℕ) (ds buf : List ℕ)
    → map digit_char ds ++ (digit_char d ∷ buf) ≡ map digit_char (ds ++ d ∷ []) ++ buf
map-snoc d [] buf = refl
map-snoc d (x ∷ ds) buf = ap (λ t. digit_char x ∷ t) (map-snoc d ds buf)

quotient_lt : (n i radix : ℕ) → 2 ≤ radix → i < 2 ^ suc n → i / radix < 2 ^ n
quotient_lt n i radix two small =
    (div-lt_iff_lt-mul {k = radix} {x = i} {y = 2 ^ n} (omega arith)).1 (grind (arith, pow-suc 2 n))

-- What a run of the loop leaves: digits in front of the buffer, and a rest of the width.
abbrev pub IsNumber : ℕ → ℕ → ℕ → Bool → ℕ → List ℕ → List ℕ × ℕ → Type 0
IsNumber n i radix left width buf (out, remaining) =
    (ds : List ℕ) × (out ≡ map digit_char ds ++ buf)
    × (value_from radix 0 ds ≡ i)
    × All (λ d. d < radix) ds
    × (1 ≤ length ds)
    × (length ds ≤ n)
    × (remaining ≡ width - length ds)
    × (left ≡ false → remaining ≡ 0)

-- The test of the loop.
abbrev goes_on : ℕ → ℕ → Bool → ℕ → Bool
goes_on i radix left width = not (i / radix == 0) || (not left && ltb 0 (width - 1))

rounds_left :
    (n i radix : ℕ) (left : Bool) (width : ℕ)
    → 2 ≤ radix
    → i < 2 ^ suc n
    → width ≤ suc n
    → goes_on i radix left width ≡ true
    → 0 < n
rounds_left zero i radix left width two small narrow go =
    absurd (ground (arith, quotient_lt zero i radix two small))
rounds_left (suc n) i radix left width two small narrow go = omega arith

-- The last round, and one before it.
last_digit-IsNumber :
    (n i radix : ℕ) (left : Bool) (width : ℕ) (buf : List ℕ)
    → 2 ≤ radix
    → goes_on i radix left width ≡ false
    → IsNumber (suc n) i radix left width buf (digit_char (i % radix) ∷ buf, width - 1)
last_digit-IsNumber n i radix left width buf two stop = (
  i % radix ∷ [],
  refl,
  ground (arith, div-add-mod' i radix, ap (λ t. t * radix) {x = i / radix} {y = 0}),
  (mod-lt i (omega arith), tt),
  omega arith,
  omega arith,
  refl,
  λ e. ground arith,
)

next_digit-IsNumber :
    (n i radix : ℕ) (left : Bool) (width : ℕ) (buf : List ℕ) (rest : List ℕ × ℕ)
    → 2 ≤ radix
    → IsNumber n (i / radix) radix left (width - 1) (digit_char (i % radix) ∷ buf) rest
    → IsNumber (suc n) i radix left width buf rest
next_digit-IsNumber n i radix left width buf (out, remaining) two
      (ds, written, value, small, one, few, room, padded) =
    (
      ds ++ i % radix ∷ [],
      written ∙ map-snoc (i % radix) ds buf,
      value_from-snoc radix 0 (i % radix) ds
          ∙ ap (λ t. t * radix + i % radix) value
          ∙ div-add-mod' i radix,
      All-append (λ d. d < radix) ds (i % radix ∷ []) small (mod-lt i (omega arith), tt),
      omega (arith, length-append ds (i % radix ∷ [])),
      omega (arith, length-append ds (i % radix ∷ [])),
      omega (arith, length-append ds (i % radix ∷ [])),
      padded,
    )

-- With fuel for `n` rounds, `i` below 2 ^ n and a width of at most n, the loop ends by its own test.
pub number_loop-IsNumber :
    (n fuel i radix : ℕ) (left : Bool) (width : ℕ) (buf : List ℕ)
    → n ≤ fuel
    → 0 < n
    → 2 ≤ radix
    → i < 2 ^ n
    → width ≤ n
    → IsNumber n i radix left width buf (number_loop fuel i radix left width buf)
unfolding number_loop
number_loop-IsNumber zero fuel i radix left width buf enough some_rounds two small narrow =
    absurd (omega arith)
number_loop-IsNumber (suc n) zero i radix left width buf enough some_rounds two small narrow =
    absurd (omega arith)
number_loop-IsNumber (suc n) (suc fuel) i radix left width buf enough some_rounds two small narrow =
    let here = digit_char (i % radix) ∷ buf in
    elim (Bool-cases (goes_on i radix left width)) [
      | inl go ↦ rw go (
          next_digit-IsNumber n i radix left width buf
            (number_loop fuel (i / radix) radix left (width - 1) here) two
            (number_loop-IsNumber n fuel (i / radix) radix left (width - 1) here (omega arith)
              (rounds_left n i radix left width two small narrow go) two
              (quotient_lt n i radix two small) (omega arith)))
      | inr stop ↦ rw stop (last_digit-IsNumber n i radix left width buf two stop)
    ]
