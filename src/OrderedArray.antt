-- ===== src/OrderedArray.antt =====
-- src/datastructs/ordered_array.h and ordered_array.c: an array of pointers kept in the order of a
-- comparator. A pointer (`type_t`) is its address. The comparator reads the memory that the
-- pointers lead to, so each operation takes the comparison `less` at the memory of the call.
-- The loops count with an `int`; the sizes stay below 2 ^ 31, where it does not overflow.
pub mod Pass
pub mod Order
pub mod Laws
mod Examples
use evos.Base.{
  ℕ, zero, suc, ◌+◌, ◌-◌, Bool, Option, none, some, List, ltb, leb, if◌then◌else◌, Result, ok,
  panic, checked, u32, get_elem?, set, replicate,
}

pub record OrderedArray : Type 0 where
  pub array : List ℕ
  pub size : ℕ
  pub max_size : ℕ

-- `(uint32_t)a < (uint32_t)b`
unfoldable pub standard_less_than_cmp : ℕ → ℕ → Bool
standard_less_than_cmp a b = ltb a b

-- `if (!cmp) cmp = standard_less_than_cmp;`
unfoldable pub comparator_of : Option (ℕ → ℕ → Bool) → ℕ → ℕ → Bool
unfolding standard_less_than_cmp
comparator_of none = standard_less_than_cmp
comparator_of (some cmp) = cmp

-- The slots are cleared, and none is in use.
unfoldable pub create_at : ℕ → OrderedArray
create_at size = record { array = replicate size 0; size = 0; max_size = size }

-- `this->array[index]` behind its bounds check.
unfoldable pub index : OrderedArray → ℕ → Result ℕ
index t i = if leb t.size i then panic else checked (get_elem? t.array i)

-- `array[i] = array[i + 1]`
unfoldable pub move_down : ℕ → List ℕ → List ℕ
move_down i a = elim (get_elem? a (suc i)) [ none ↦ a | some x ↦ set a i x ]

-- The loop of `ordered_array_remove` from index `i`, with a number of rounds left.
unfoldable pub move_down_from : ℕ → ℕ → List ℕ → List ℕ
unfolding move_down
move_down_from zero i a = a
move_down_from (suc rounds) i a = move_down_from rounds (suc i) (move_down i a)

unfoldable pub remove : OrderedArray → ℕ → Result OrderedArray
unfolding move_down_from
remove t i =
    if leb t.size i
    then panic
    else ok (record t { array = move_down_from (t.size - 1 - i) i t.array; size = t.size - 1 })

module _ (less : ℕ → ℕ → Bool) where
  -- The body of the loop at index `i + 1`: swap with the left neighbour if that is greater.
  unfoldable pub compare_swap : ℕ → List ℕ → List ℕ
  compare_swap i a = elim (get_elem? a i) [
    | none ↦ a
    | some left ↦ elim (get_elem? a (suc i)) [
      | none ↦ a
      | some here ↦ if less here left then set (set a (suc i) left) i here else a
    ]
  ]

  -- The loop from index `i` down to index 1.
  unfoldable pub pass : ℕ → List ℕ → List ℕ
  unfolding compare_swap
  pass zero a = a
  pass (suc i) a = pass i (compare_swap i a)

  unfoldable pub changed_element : OrderedArray → OrderedArray
  unfolding pass
  changed_element t = record t { array = pass (t.size - 1) t.array }

  unfoldable pub insert : OrderedArray → ℕ → Result OrderedArray
  unfolding changed_element
  insert t value =
      if ltb t.max_size (u32 (t.size + 1))
      then panic
      else ok
          (changed_element (record t { array = set t.array t.size value; size = u32 (t.size + 1) }))
