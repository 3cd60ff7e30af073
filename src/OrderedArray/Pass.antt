-- ===== src/OrderedArray/Pass.antt =====
-- The pass of `ordered_array_changed_element`, described on the sequence of used slots.
use evos.Base.{
  ℕ, zero, suc, ◌≡◌, refl, ap, ◌∙◌, Bool, List, [], ◌∷◌, ◌++◌, arith, if◌then◌else◌, length,
  Bool-cases, inl, inr,
}
use mathlib.Core.List.{Perm}
use mathlib.Core.List.Perm
use evos.OrderedArray.{compare_swap, pass}

module _ (less : ℕ → ℕ → Bool) where
  -- The greater of `x` and the head of the list goes behind the other.
  abbrev pub settle : ℕ → List ℕ → List ℕ
  settle x [] = x ∷ []
  settle x (y ∷ ys) = if less y x then y ∷ x ∷ ys else x ∷ y ∷ ys

  -- One pass from the right end: each neighbour pair is put in order once.
  abbrev pub bubble : List ℕ → List ℕ
  bubble [] = []
  bubble (x ∷ xs) = settle x (bubble xs)

  compare_swap-cons :
      (i x : ℕ) (a : List ℕ) → compare_swap less (suc i) (x ∷ a) ≡ x ∷ compare_swap less i a
  unfolding compare_swap
  compare_swap-cons i x a = ground arith

  pass-cons :
      (n x : ℕ) (a : List ℕ) → pass less (suc n) (x ∷ a) ≡ compare_swap less 0 (x ∷ pass less n a)
  unfolding pass
  pass-cons zero x a = refl
  pass-cons (suc n) x a =
      ap (pass less (suc n)) (compare_swap-cons n x a) ∙ pass-cons n x (compare_swap less n a)

  length-settle : (x : ℕ) (ys : List ℕ) → length (settle x ys) ≡ suc (length ys)
  length-settle x [] = refl
  length-settle x (y ∷ ys) = ground arith

  pub length-bubble : (xs : List ℕ) → length (bubble xs) ≡ length xs
  length-bubble [] = refl
  length-bubble (x ∷ xs) = length-settle x (bubble xs) ∙ ap suc (length-bubble xs)

  compare_swap-settle :
      (x : ℕ) (ys rest : List ℕ) (n : ℕ)
      → length ys ≡ suc n
      → compare_swap less 0 (x ∷ ys ++ rest) ≡ settle x ys ++ rest
  unfolding compare_swap
  compare_swap-settle x [] rest n e = absurd (omega arith)
  compare_swap-settle x (y ∷ ys) rest n e = ground arith

  -- On the used slots the loop is one pass; the other slots stay as they are.
  pub pass-bubble :
      (n : ℕ) (xs rest : List ℕ) → length xs ≡ suc n → pass less n (xs ++ rest) ≡ bubble xs ++ rest
  unfolding pass
  pass-bubble n [] rest e = absurd (omega arith)
  pass-bubble zero (x ∷ []) rest e = refl
  pass-bubble zero (x ∷ y ∷ xs) rest e = absurd (omega arith)
  pass-bubble (suc n) (x ∷ xs) rest e =
      pass-cons n x (xs ++ rest)
      ∙ ap (λ t. compare_swap less 0 (x ∷ t)) (pass-bubble n xs rest (omega arith))
      ∙ compare_swap-settle x (bubble xs) rest n (length-bubble xs ∙ omega arith)

  settle-perm : (x : ℕ) (ys : List ℕ) → Perm (settle x ys) (x ∷ ys)
  settle-perm x [] = Perm.refl (x ∷ [])
  settle-perm x (y ∷ ys) = elim (Bool-cases (less y x)) [
    | inl lt ↦ rw lt (Perm.swap x y ys)
    | inr ge ↦ rw ge (Perm.refl (x ∷ y ∷ ys))
  ]

  -- The pass only moves elements.
  pub bubble-perm : (xs : List ℕ) → Perm (bubble xs) xs
  bubble-perm [] = Perm.refl []
  bubble-perm (x ∷ xs) = Perm.trans (settle-perm x (bubble xs)) (Perm.cons x (bubble-perm xs))
