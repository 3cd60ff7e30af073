-- ===== src/OrderedArray/Order.antt =====
-- The order that the comparator gives, and when one pass restores it.
use evos.Base.{
  ℕ, ◌≡◌, refl, ap, ◌∙◌, Bool, true, false, List, [], ◌∷◌, ◌++◌, arith, if◌then◌else◌, ltb,
  Bool-cases, inl, inr,
}
use mathlib.Core.List.{Perm}
use mathlib.Core.List.Perm
use evos.OrderedArray.{standard_less_than_cmp}
use evos.OrderedArray.Pass.{settle, bubble}

-- What `ordered_array_t` expects of a comparator: "less" compares some rank.
pub record IsLess (less : ℕ → ℕ → Bool) : Type 0 where
  pub asym : (a b : ℕ) → less a b ≡ true → less b a ≡ false
  pub ge_trans : (a b c : ℕ) → less b a ≡ false → less c b ≡ false → less c a ≡ false

-- Comparing any number read off the elements is such a comparator.
pub by_rank : (rank : ℕ → ℕ) → IsLess (λ a b. ltb (rank a) (rank b))
by_rank rank = record { asym = λ a b h. ground arith; ge_trans = λ a b c h k. ground arith }

pub standard-IsLess : IsLess standard_less_than_cmp
unfolding standard_less_than_cmp
standard-IsLess = by_rank (λ a. a)

module _ (less : ℕ → ℕ → Bool) where
  -- no element of the list is less than `x`
  abbrev pub AllFrom : ℕ → List ℕ → Type 0
  AllFrom x [] = Unit
  AllFrom x (y ∷ ys) = (less y x ≡ false) × AllFrom x ys

  abbrev pub IsSorted : List ℕ → Type 0
  IsSorted [] = Unit
  IsSorted (x ∷ xs) = AllFrom x xs × IsSorted xs

  -- Insertion behind the elements that are not greater: the reference for `ordered_array_insert`.
  abbrev pub insert_sorted : ℕ → List ℕ → List ℕ
  insert_sorted v [] = v ∷ []
  insert_sorted v (x ∷ xs) = if less v x then v ∷ x ∷ xs else x ∷ insert_sorted v xs

  pub insert_sorted-perm : (v : ℕ) (xs : List ℕ) → Perm (insert_sorted v xs) (v ∷ xs)
  insert_sorted-perm v [] = Perm.refl (v ∷ [])
  insert_sorted-perm v (x ∷ xs) = elim (Bool-cases (less v x)) [
    | inl lt ↦ rw lt (Perm.refl (v ∷ x ∷ xs))
    | inr ge ↦ rw ge (Perm.trans (Perm.cons x (insert_sorted-perm v xs)) (Perm.swap v x xs))
  ]

  AllFrom-insert :
      (x v : ℕ) (xs : List ℕ) → less v x ≡ false → AllFrom x xs → AllFrom x (insert_sorted v xs)
  AllFrom-insert x v [] h all = (h, tt)
  AllFrom-insert x v (y ∷ ys) h all = elim (Bool-cases (less v y)) [
    | inl lt ↦ rw lt (h, all)
    | inr ge ↦ rw ge (all.0, AllFrom-insert x v ys h all.1)
  ]

  module _ (is : IsLess less) where
    AllFrom-weaken : (x y : ℕ) (xs : List ℕ) → less y x ≡ false → AllFrom y xs → AllFrom x xs
    AllFrom-weaken x y [] h all = tt
    AllFrom-weaken x y (z ∷ zs) h all = (is.ge_trans x y z h all.0, AllFrom-weaken x y zs h all.1)

    pub insert_sorted-IsSorted : (v : ℕ) (xs : List ℕ) → IsSorted xs → IsSorted (insert_sorted v xs)
    insert_sorted-IsSorted v [] s = (tt, tt)
    insert_sorted-IsSorted v (x ∷ xs) s = elim (Bool-cases (less v x)) [
      | inl lt ↦
          rw lt
            (let le : less x v ≡ false = is.asym v x lt in ((le, AllFrom-weaken v x xs le s.0), s))
      | inr ge ↦ rw ge (AllFrom-insert x v xs ge s.0, insert_sorted-IsSorted v xs s.1)
    ]

    settle_id : (x : ℕ) (xs : List ℕ) → AllFrom x xs → settle less x xs ≡ x ∷ xs
    settle_id x [] all = refl
    settle_id x (y ∷ ys) all = rw all.0

    pub bubble_id : (xs : List ℕ) → IsSorted xs → bubble less xs ≡ xs
    bubble_id [] s = refl
    bubble_id (x ∷ xs) s = ap (settle less x) (bubble_id xs s.1) ∙ settle_id x xs s.0

    settle-insert :
        (x v : ℕ) (xs zs : List ℕ)
        → AllFrom x xs
        → settle less x (insert_sorted v xs ++ zs) ≡ insert_sorted v (x ∷ xs) ++ zs
    settle-insert x v [] zs all = elim (Bool-cases (less v x)) [ inl lt ↦ rw lt | inr ge ↦ rw ge ]
    settle-insert x v (y ∷ ys) zs all = elim (Bool-cases (less v y)) [
      | inl lt ↦ elim (Bool-cases (less v x)) [ inl lt' ↦ rw (lt, lt') | inr ge ↦ rw (lt, ge) ]
      | inr ge ↦ rw (ge, all.0, is.ge_trans x y v all.0 ge)
    ]

    -- With one element `v` out of place, and nothing on its right less than it, one pass is the
    -- insertion of `v` among the elements on its left.
    pub bubble-insert :
        (v : ℕ) (xs zs : List ℕ)
        → IsSorted xs
        → IsSorted zs
        → AllFrom v zs
        → bubble less (xs ++ v ∷ zs) ≡ insert_sorted v xs ++ zs
    bubble-insert v [] zs s t all = ap (settle less v) (bubble_id zs t) ∙ settle_id v zs all
    bubble-insert v (x ∷ xs) zs s t all =
        ap (settle less x) (bubble-insert v xs zs s.1 t all) ∙ settle-insert x v xs zs s.0

    AllFrom-append_left : (x : ℕ) (ys zs : List ℕ) → AllFrom x (ys ++ zs) → AllFrom x ys
    AllFrom-append_left x [] zs all = tt
    AllFrom-append_left x (y ∷ ys) zs all = (all.0, AllFrom-append_left x ys zs all.1)

    AllFrom-append_right : (x : ℕ) (ys zs : List ℕ) → AllFrom x (ys ++ zs) → AllFrom x zs
    AllFrom-append_right x [] zs all = all
    AllFrom-append_right x (y ∷ ys) zs all = AllFrom-append_right x ys zs all.1

    pub IsSorted-append : (ys zs : List ℕ) → IsSorted (ys ++ zs) → IsSorted ys × IsSorted zs
    IsSorted-append [] zs s = (tt, s)
    IsSorted-append (y ∷ ys) zs s =
        let rest = IsSorted-append ys zs s.1 in ((AllFrom-append_left y ys zs s.0, rest.0), rest.1)

    AllFrom-insert_append :
        (x v : ℕ) (xs zs : List ℕ)
        → less v x ≡ false
        → AllFrom x (xs ++ zs)
        → AllFrom x (insert_sorted v xs ++ zs)
    AllFrom-insert_append x v [] zs h all = (h, all)
    AllFrom-insert_append x v (y ∷ ys) zs h all = elim (Bool-cases (less v y)) [
      | inl lt ↦ rw lt (h, all)
      | inr ge ↦ rw ge (all.0, AllFrom-insert_append x v ys zs h all.1)
    ]

    pub IsSorted-insert_append :
        (v : ℕ) (xs zs : List ℕ)
        → IsSorted (xs ++ zs)
        → AllFrom v zs
        → IsSorted (insert_sorted v xs ++ zs)
    IsSorted-insert_append v [] zs s all = (all, s)
    IsSorted-insert_append v (x ∷ xs) zs s all = elim (Bool-cases (less v x)) [
      | inl lt ↦ rw lt (
          let le : less x v ≡ false = is.asym v x lt in
          ((le, AllFrom-weaken v x (xs ++ zs) le s.0), s))
      | inr ge ↦
          rw ge (AllFrom-insert_append x v xs zs ge s.0, IsSorted-insert_append v xs zs s.1 all)
    ]
