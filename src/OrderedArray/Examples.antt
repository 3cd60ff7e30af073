-- ===== src/OrderedArray/Examples.antt =====
-- The ordered array at concrete inputs.
use evos.Base.{◌≡◌, refl, [], ◌∷◌, ◌++◌, arith, ok, panic}
use evos.OrderedArray.{
  OrderedArray, standard_less_than_cmp, create_at, insert, remove, index, changed_element,
}
use evos.OrderedArray.Order.{IsSorted, insert_sorted, standard-IsLess}
use evos.OrderedArray.Laws.{
  Holds, index_lem, insert-insert_sorted, changed_element-IsSorted, changed_element_grown,
}
use mathlib.Core.List.{Perm}

-- 3, 5, 9 in four slots
abbrev three : OrderedArray
three = record { array = 3 ∷ 5 ∷ 9 ∷ 0 ∷ []; size = 3; max_size = 4 }

abbrev three-Holds : Holds three (3 ∷ 5 ∷ 9 ∷ [])
three-Holds = record {
  spare = 0 ∷ [];
  slots = refl;
  count = refl;
  capacity = omega arith;
  small = omega arith;
}

-- 9, 3, 5: the first element has grown
abbrev grown : OrderedArray
grown = record { array = 9 ∷ 3 ∷ 5 ∷ []; size = 3; max_size = 3 }

abbrev grown-Holds : Holds grown (9 ∷ 3 ∷ 5 ∷ [])
grown-Holds = record {
  spare = [];
  slots = refl;
  count = refl;
  capacity = omega arith;
  small = omega arith;
}

insert_runs :
    insert standard_less_than_cmp three 4
    ≡ ok (record { array = 3 ∷ 4 ∷ 5 ∷ 9 ∷ []; size = 4; max_size = 4 })
unfolding insert standard_less_than_cmp
insert_runs = refl

remove_runs : remove three 0 ≡ ok (record { array = 5 ∷ 9 ∷ 9 ∷ 0 ∷ []; size = 2; max_size = 4 })
unfolding remove
remove_runs = refl

create_at_full : insert standard_less_than_cmp (create_at 0) 1 ≡ panic
unfolding insert create_at
create_at_full = refl

index_lem_example : index three 1 ≡ ok 5
index_lem_example = (index_lem 1 three-Holds).0 5 refl

insert-insert_sorted_example :
    (t' : OrderedArray) × (insert standard_less_than_cmp three 4 ≡ ok t')
    × Holds t' (insert_sorted standard_less_than_cmp 4 (3 ∷ 5 ∷ 9 ∷ []))
    × IsSorted standard_less_than_cmp (insert_sorted standard_less_than_cmp 4 (3 ∷ 5 ∷ 9 ∷ []))
    × Perm (insert_sorted standard_less_than_cmp 4 (3 ∷ 5 ∷ 9 ∷ [])) (4 ∷ 3 ∷ 5 ∷ 9 ∷ [])
unfolding standard_less_than_cmp
insert-insert_sorted_example =
    insert-insert_sorted standard_less_than_cmp standard-IsLess 4 (3 ∷ 5 ∷ 9 ∷ []) three-Holds
      (ground arith) (omega arith)

changed_element-IsSorted_example :
    Holds
      (changed_element standard_less_than_cmp three)
      (insert_sorted standard_less_than_cmp 5 (3 ∷ []) ++ 9 ∷ [])
    × IsSorted standard_less_than_cmp (insert_sorted standard_less_than_cmp 5 (3 ∷ []) ++ 9 ∷ [])
unfolding standard_less_than_cmp
changed_element-IsSorted_example =
    changed_element-IsSorted standard_less_than_cmp standard-IsLess (3 ∷ []) 5 (9 ∷ []) three-Holds
      (ground arith) (ground arith)

changed_element_grown_example :
    Holds (changed_element standard_less_than_cmp grown) (3 ∷ 9 ∷ 5 ∷ [])
    × ¬ IsSorted standard_less_than_cmp (3 ∷ 9 ∷ 5 ∷ [])
unfolding standard_less_than_cmp
changed_element_grown_example =
    changed_element_grown standard_less_than_cmp standard-IsLess 9 3 5 [] grown-Holds (ground arith)
      refl refl
