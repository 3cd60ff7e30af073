-- ===== src/OrderedArray/Laws.antt =====
-- The operations of ordered_array.c against the sequence of the used slots.
use Prim.Native.Nat.{◌^◌}
use mathlib.Core.List.{Perm, append_assoc, append-nil}
use evos.Base.{
  ℕ, zero, suc, ◌+◌, ◌-◌, ◌≤◌, ◌<◌, ◌≡◌, refl, ap, ◌∙◌, sym, Bool, true, false, some, List, [], ◌∷◌,
  ◌++◌, arith, ltb, u32, get_elem?-append_left, ok, panic, length, length-append, get_elem?, set,
  length-replicate, replicate, Bool-cases, inl, inr, ok_injective,
}
use evos.OrderedArray.{
  OrderedArray, create_at, index, move_down, move_down_from, remove, pass, changed_element, insert,
}
use evos.OrderedArray.Pass.{settle, bubble, length-bubble, pass-bubble}
use evos.OrderedArray.Order.{
  IsLess, IsSorted, AllFrom, insert_sorted, insert_sorted-perm, insert_sorted-IsSorted, bubble_id,
  bubble-insert, IsSorted-append, IsSorted-insert_append,
}

-- `t` holds the sequence `xs`; the slots behind it are spare.
pub record Holds (t : OrderedArray) (xs : List ℕ) : Type 0 where
  pub spare : List ℕ
  pub slots : t.array ≡ xs ++ spare
  pub count : t.size ≡ length xs
  pub capacity : t.max_size ≡ length xs + length spare
  pub small : t.max_size < 2 ^ 31

pub create_at-Holds : (size : ℕ) → size < 2 ^ 31 → Holds (create_at size) []
unfolding create_at
create_at-Holds size h = record {
  spare = replicate size 0;
  slots = refl;
  count = refl;
  capacity = omega (arith, let z : ℕ = 0 in length-replicate size z);
  small = h;
}

get_elem?_lt : (xs : List ℕ) (i : ℕ) {x : ℕ} → get_elem? xs i ≡ some x → i < length xs
get_elem?_lt [] i e = cc
get_elem?_lt (x ∷ xs) zero e = omega arith
get_elem?_lt (x ∷ xs) (suc i) e = omega (arith, get_elem?_lt xs i e)

set-append :
    (xs : List ℕ) (s v : ℕ) (rest : List ℕ)
    → set (xs ++ s ∷ rest) (length xs) v ≡ (xs ++ v ∷ []) ++ rest
set-append [] s v rest = refl
set-append (x ∷ xs) s v rest = ap (λ t. x ∷ t) (set-append xs s v rest)

move_down-cons : (i x : ℕ) (a : List ℕ) → move_down (suc i) (x ∷ a) ≡ x ∷ move_down i a
unfolding move_down
move_down-cons i x a = ground arith

move_down_from-cons :
    (n i x : ℕ) (a : List ℕ) → move_down_from n (suc i) (x ∷ a) ≡ x ∷ move_down_from n i a
unfolding move_down_from
move_down_from-cons zero i x a = refl
move_down_from-cons (suc n) i x a =
    ap (move_down_from n (suc (suc i))) (move_down-cons i x a)
    ∙ move_down_from-cons n (suc i) x (move_down i a)

-- What the shifting loop leaves, from index 0 on: all elements but the first, then a stale one.
move_down_from_zero :
    (x : ℕ) (zs rest : List ℕ)
    → (stale : ℕ) × (move_down_from (length zs) 0 (x ∷ zs ++ rest) ≡ zs ++ stale ∷ rest)
unfolding move_down_from
move_down_from_zero x [] rest = (x, refl)
move_down_from_zero x (z ∷ zs) rest =
    let tail = move_down_from_zero z zs rest in
    (tail.0, move_down_from-cons (length zs) 0 z (z ∷ zs ++ rest) ∙ ap (λ t. z ∷ t) tail.1)

move_down_from-append :
    (ys : List ℕ) (n : ℕ) (a : List ℕ)
    → move_down_from n (length ys) (ys ++ a) ≡ ys ++ move_down_from n 0 a
move_down_from-append [] n a = refl
move_down_from-append (y ∷ ys) n a =
    move_down_from-cons n (length ys) y (ys ++ a) ∙ ap (λ t. y ∷ t) (move_down_from-append ys n a)

-- `ordered_array_index` reads the sequence, and panics exactly outside it.
pub index_lem :
    {t : OrderedArray} {xs : List ℕ} (i : ℕ)
    → Holds t xs
    → ((x : ℕ) → get_elem? xs i ≡ some x → index t i ≡ ok x) × (length xs ≤ i → index t i ≡ panic)
unfolding index
index_lem {t} {xs} i h = (
  λ x e. ground (arith, get_elem?_lt xs i e, get_elem?-append_left xs h.spare i),
  λ p. ground arith,
)

-- Removing the element at an index keeps the sequence of the others.
pub remove-append :
    {t : OrderedArray} (ys : List ℕ) (x : ℕ) (zs : List ℕ)
    → Holds t (ys ++ x ∷ zs)
    → (t' : OrderedArray) × (remove t (length ys) ≡ ok t')
      × Holds t' (ys ++ zs)
      × (t'.max_size ≡ t.max_size)
unfolding remove
remove-append {t} ys x zs h = (
  record t {
    array = move_down_from (t.size - 1 - length ys) (length ys) t.array;
    size = t.size - 1;
  },
  ground (arith, length-append ys (x ∷ zs)),
  record {
    spare = left.0 ∷ h.spare;
    slots = shifted;
    count = omega (arith, h.count, length-append ys (x ∷ zs), length-append ys zs);
    capacity = omega (arith, h.capacity, length-append ys (x ∷ zs), length-append ys zs);
    small = h.small;
  },
  refl,
)
  where
    left : (stale : ℕ) × (move_down_from (length zs) 0 (x ∷ zs ++ h.spare) ≡ zs ++ stale ∷ h.spare)
    left = move_down_from_zero x zs h.spare

    rounds : t.size - 1 - length ys ≡ length zs
    rounds = omega (arith, h.count, length-append ys (x ∷ zs))

    shifted :
        move_down_from (t.size - 1 - length ys) (length ys) t.array ≡ (ys ++ zs) ++ left.0 ∷ h.spare
    shifted =
        rw (rounds, h.slots, append_assoc, append_assoc)
          (move_down_from-append ys (length zs) (x ∷ zs ++ h.spare) ∙ ap (λ t. ys ++ t) left.1)

pub remove_out_of_bounds : (t : OrderedArray) (i : ℕ) → t.size ≤ i → remove t i ≡ panic
unfolding remove
remove_out_of_bounds t i h = ground arith

module _ (less : ℕ → ℕ → Bool) where
  pass_used :
      (xs rest : List ℕ) (n : ℕ)
      → n ≡ length xs - 1
      → pass less n (xs ++ rest) ≡ bubble less xs ++ rest
  unfolding pass
  pass_used [] rest n e = rw e
  pass_used (x ∷ xs) rest n e =
      let n_lem : n ≡ length xs = omega arith in
      pass-bubble less n (x ∷ xs) rest (ap suc (sym n_lem))

  -- The pass keeps the number of elements and moves them only.
  pub changed_element-Holds :
      {t : OrderedArray} {xs : List ℕ}
      → Holds t xs
      → Holds (changed_element less t) (bubble less xs)
  unfolding changed_element
  changed_element-Holds {t} {xs} h = record {
    spare = h.spare;
    slots =
        ap (pass less (t.size - 1)) h.slots
        ∙ pass_used xs h.spare (t.size - 1) (omega (arith, h.count));
    count = h.count ∙ sym (length-bubble less xs);
    capacity = omega (arith, h.capacity, length-bubble less xs);
    small = h.small;
  }

  -- The new element is stored in the first spare slot.
  stored-Holds :
      {t : OrderedArray} (v : ℕ) (xs spare : List ℕ)
      → t.array ≡ xs ++ spare
      → t.size ≡ length xs
      → t.max_size ≡ length xs + length spare
      → t.max_size < 2 ^ 31
      → length xs < t.max_size
      → Holds (record t { array = set t.array t.size v; size = u32 (t.size + 1) }) (xs ++ v ∷ [])
  stored-Holds v xs [] e c m small room = absurd (omega arith)
  stored-Holds {t} v xs (s ∷ rest) e c m small room = record {
    spare = rest;
    slots = rw (e, c) (set-append xs s v rest);
    count = omega (arith, length-append xs (v ∷ []));
    capacity = omega (arith, length-append xs (v ∷ []));
    small = small;
  }

  pub insert-bubble :
      {t : OrderedArray} (v : ℕ) (xs : List ℕ)
      → Holds t xs
      → length xs < t.max_size
      → (t' : OrderedArray) × (insert less t v ≡ ok t') × Holds t' (bubble less (xs ++ v ∷ []))
  unfolding insert
  insert-bubble {t} v xs h room = (
    changed_element less (record t { array = set t.array t.size v; size = u32 (t.size + 1) }),
    rw fits,
    changed_element-Holds (stored-Holds v xs h.spare h.slots h.count h.capacity h.small room),
  )
    where
      fits : ltb t.max_size (u32 (t.size + 1)) ≡ false
      fits = ground (arith, h.count, h.small)

  pub insert_max :
      (t : OrderedArray) (v : ℕ) (t' : OrderedArray)
      → insert less t v ≡ ok t'
      → t'.max_size ≡ t.max_size
  unfolding insert changed_element
  insert_max t v t' e = elim (Bool-cases (ltb t.max_size (u32 (t.size + 1)))) [
    | inl full ↦ let panics : panic ≡ ok t' = rw full at e in cc
    | inr fits ↦
        let done = ok_injective (rw fits at e) in sym (ap (λ (x : OrderedArray). x.max_size) done)
  ]

  pub insert_full :
      {t : OrderedArray} (v : ℕ) (xs : List ℕ)
      → Holds t xs
      → length xs ≡ t.max_size
      → insert less t v ≡ panic
  unfolding insert
  insert_full {t} v xs h full = rw fits
    where
      fits : ltb t.max_size (u32 (t.size + 1)) ≡ true
      fits = ground (arith, h.count, h.small)

  module _ (is : IsLess less) where
    -- On a sequence in order with a free slot, `ordered_array_insert` stores the sequence with the
    -- element inserted behind those not greater than it: in order, and the same elements and it.
    pub insert-insert_sorted :
        {t : OrderedArray} (v : ℕ) (xs : List ℕ)
        → Holds t xs
        → IsSorted less xs
        → length xs < t.max_size
        → (t' : OrderedArray) × (insert less t v ≡ ok t')
          × Holds t' (insert_sorted less v xs)
          × IsSorted less (insert_sorted less v xs)
          × Perm (insert_sorted less v xs) (v ∷ xs)
    insert-insert_sorted v xs h s room =
        let done = insert-bubble v xs h room in
        let e : bubble less (xs ++ v ∷ []) ≡ insert_sorted less v xs =
          bubble-insert less is v xs [] s tt tt ∙ append-nil (insert_sorted less v xs) in
        (
          done.0,
          done.1,
          rw e at done.2,
          insert_sorted-IsSorted less is v xs s,
          insert_sorted-perm less v xs,
        )

    -- When the sequence is in order but for one element, and nothing on the right of that element
    -- is less than it, `ordered_array_changed_element` puts the sequence in order.
    pub changed_element-IsSorted :
        {t : OrderedArray} (xs : List ℕ) (v : ℕ) (zs : List ℕ)
        → Holds t (xs ++ v ∷ zs)
        → IsSorted less (xs ++ zs)
        → AllFrom less v zs
        → Holds (changed_element less t) (insert_sorted less v xs ++ zs)
          × IsSorted less (insert_sorted less v xs ++ zs)
    changed_element-IsSorted {t} xs v zs h s all =
        let parts = IsSorted-append less is xs zs s in
        (
          rw (bubble-insert less is v xs zs parts.0 parts.1 all) at (changed_element-Holds h),
          IsSorted-insert_append less is v xs zs s all,
        )

    -- An element at the front that has become greater than its two neighbours on the right, which
    -- are in order with what follows, is carried past the first of them only: the sequence that
    -- `ordered_array_changed_element` leaves is not in order.
    pub changed_element_grown :
        {t : OrderedArray} (v x y : ℕ) (zs : List ℕ)
        → Holds t (v ∷ x ∷ y ∷ zs)
        → IsSorted less (x ∷ y ∷ zs)
        → less x v ≡ true
        → less y v ≡ true
        → Holds (changed_element less t) (x ∷ v ∷ y ∷ zs) × ¬ IsSorted less (x ∷ v ∷ y ∷ zs)
    changed_element_grown v x y zs h s p q = (
      rw (ap (settle less v) (bubble_id less is (x ∷ y ∷ zs) s) ∙ swap) at
          (changed_element-Holds h),
      λ sorted. cc (sorted.1.0.0, q),
    )
      where
        swap : settle less v (x ∷ y ∷ zs) ≡ x ∷ v ∷ y ∷ zs
        swap = rw p
