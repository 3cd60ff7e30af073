-- ===== src/Heap/Free/Merge.antt =====
-- The two merges of heap_free.
use evos.Base.{
  ℕ, zero, suc, ◌+◌, ◌-◌, ◌^◌, ◌≤◌, ◌<◌, ◌≡◌, ◌≢◌, inl, inr, refl, sym, ap, ◌∙◌, true, false, List,
  [], ◌∷◌, ◌++◌, All, arith, ok, ltb, ◌==◌, u32, sub32, length, length-append,
  get_elem?-append_here, Bool-cases,
}
use mathlib.Core.List.{append_assoc}
use evos.Base.Memory.{load32, store32, load32-store32_ne, load32-store32_self}
use evos.OrderedArray
use evos.OrderedArray.{OrderedArray}
use evos.OrderedArray.Laws.{Holds, index_lem, remove-append}
use evos.Heap.{Heap, magic, header_t_cmp}
use evos.Heap.Alloc.Blocks.{IsBlock}
use evos.Heap.Free.{find_address, merge_left, merge_right}
use evos.Heap.Free.Join.{joined_left, joined_right}

module _ {Pages : Type 0} (heap : Heap Pages) (a n k hole : ℕ)
    (first : IsBlock heap.memory a n hole) where
  module _ (low : a + n + k < 2 ^ 32) (above : heap.allocated_start ≤ a) where
    pub merge_left_hole :
        hole ≢ 0
        → IsBlock heap.memory (a + n) k 1
        → merge_left heap (a + n) (a + n + k - 8)
          ≡ ok (
            a,
            false,
            record heap {
              memory = joined_left heap.memory a n k;
              index =
                  OrderedArray.changed_element
                    (header_t_cmp (joined_left heap.memory a n k))
                    heap.index;
            },
          )
    unfolding merge_left
    merge_left_hole some_hole second =
        let m = heap.memory in
        let m1 = store32 m (a + n + k - 4) a in
        let m2 = store32 m1 (a + 8) (n + k) in
        let left_footer : sub32 (a + n) 8 ≡ a + n - 8 = omega (arith, first.room) in
        let past : ltb heap.allocated_start (a + n - 8) ≡ true = ground (arith, first.room) in
        let is : (hole == 0) ≡ false = ground arith in
        let back_at : a + n + k - 8 + 4 ≡ a + n + k - 4 = omega (arith, first.room) in
        let back' : load32 m1 (a + n - 8 + 4) ≡ a =
          load32-store32_ne m (a + n + k - 4) a (a + n - 8 + 4)
            (omega (arith, first.room, second.room))
          ∙ first.back in
        let size1 : load32 m1 (a + 8) ≡ n =
          load32-store32_ne m (a + n + k - 4) a (a + 8) (omega (arith, first.room, second.room))
          ∙ first.sized in
        let size2 : load32 m1 (a + n + 8) ≡ k =
          load32-store32_ne m (a + n + k - 4) a (a + n + 8) (omega (arith, first.room, second.room))
          ∙ second.sized in
        let sum : u32 (n + k) ≡ n + k = omega arith in
        let back'' : load32 m2 (a + n - 8 + 4) ≡ a =
          load32-store32_ne m1 (a + 8) (n + k) (a + n - 8 + 4) (omega (arith, first.room))
          ∙ back' in
        rw
          (
            left_footer, first.footer, first.back, first.hole_flag, past, is, first.header, back_at,
            back', size1, size2, sum, back'',
          )
          refl

  -- A block that is no hole is not merged.
  pub merge_left_used :
      (footer : ℕ)
      → hole ≡ 0
      → a + n < 2 ^ 32
      → merge_left heap (a + n) footer ≡ ok (a + n, true, heap)
  unfolding merge_left
  merge_left_used footer used low =
      let left_footer : sub32 (a + n) 8 ≡ a + n - 8 = omega (arith, first.room) in
      let is : (hole == 0) ≡ true = ground arith in
      elim (Bool-cases (ltb heap.allocated_start (a + n - 8))) [
        | inl e ↦ rw (left_footer, first.footer, first.back, first.hole_flag, is, e) refl
        | inr e ↦ rw (left_footer, first.footer, first.back, first.hole_flag, is, e) refl
      ]

  -- Behind the block, at the end of the heap, there is none to merge.
  pub merge_right_end :
      a + n ≡ heap.allocated_end → heap.allocated_end < 2 ^ 32 → merge_right heap a ≡ ok heap
  unfolding merge_right
  merge_right_end last low =
      let right : u32 (a + n) ≡ a + n = omega arith in
      let past : ltb (a + n) heap.allocated_end ≡ false = ground arith in
      rw (first.sized, right, past) refl

  pub merge_right_used :
      IsBlock heap.memory (a + n) k 0 → a + n < 2 ^ 32 → merge_right heap a ≡ ok heap
  unfolding merge_right
  merge_right_used second low =
      let right : u32 (a + n) ≡ a + n = omega arith in
      elim (Bool-cases (ltb (a + n) heap.allocated_end)) [
        | inl e ↦ rw (first.sized, right, second.header, second.hole_flag, e) refl
        | inr e ↦ rw (first.sized, right, second.header, second.hole_flag, e) refl
      ]

-- In front of the first block there is none to merge.
pub merge_left_start :
    {Pages : Type 0} (heap : Heap Pages) (a footer : ℕ)
    → a ≡ heap.allocated_start
    → 8 ≤ a
    → a < 2 ^ 32
    → merge_left heap a footer ≡ ok (a, true, heap)
unfolding merge_left
merge_left_start heap a footer first high low =
    let left_footer : sub32 a 8 ≡ a - 8 = omega arith in
    let past : ltb heap.allocated_start (a - 8) ≡ false = ground arith in
    rw (left_footer, past) refl

-- The search finds the first slot with the address.
find_address_from :
    (t : OrderedArray) (ws ys : List ℕ) (x : ℕ) (zs : List ℕ) (rounds : ℕ)
    → Holds t (ws ++ (ys ++ x ∷ zs))
    → All (λ y. y ≢ x) ys
    → length ys < rounds
    → find_address t x rounds (length ws) ≡ ok (length ws + length ys)
unfolding find_address
find_address_from t ws ys x zs zero held others enough = absurd (omega arith)
find_address_from t ws [] x zs (suc rounds) held others enough =
    let here = (index_lem (length ws) held).0 x (get_elem?-append_here ws x zs) in
    let same : (x == x) ≡ true = ground arith in
    let at : length ws + 0 ≡ length ws = omega arith in rw (here, same, at) refl
find_address_from t ws (y ∷ ys) x zs (suc rounds) held (ne, others) enough =
    let here = (index_lem (length ws) held).0 y (get_elem?-append_here ws y (ys ++ x ∷ zs)) in
    let other : (y == x) ≡ false = ground arith in
    let size : length (ws ++ y ∷ []) ≡ length ws + 1 = omega (arith, length-append ws (y ∷ [])) in
    let held' : Holds t ((ws ++ y ∷ []) ++ (ys ++ x ∷ zs)) =
      rw (append_assoc ws (y ∷ []) (ys ++ x ∷ zs)) held in
    let rest = find_address_from t (ws ++ y ∷ []) ys x zs rounds held' others (omega arith) in
    let sum : length (ws ++ y ∷ []) + length ys ≡ length ws + suc (length ys) =
      omega (arith, size) in
    rw (here, other) (ap (find_address t x rounds) (sym size) ∙ rest ∙ ap ok sum)

pub find_address_lem :
    (t : OrderedArray) (ys : List ℕ) (x : ℕ) (zs : List ℕ)
    → Holds t (ys ++ x ∷ zs)
    → All (λ y. y ≢ x) ys
    → find_address t x t.size 0 ≡ ok (length ys)
find_address_lem t ys x zs held others =
    find_address_from t [] ys x zs t.size held others
      (omega (arith, held.count, length-append ys (x ∷ zs)))
    ∙ ap ok (omega arith)

pub merge_right_hole :
    {Pages : Type 0} (heap : Heap Pages) (a n k hole hole' : ℕ) (ys zs : List ℕ)
    → IsBlock heap.memory a n hole
    → IsBlock heap.memory (a + n) k hole'
    → hole' ≢ 0
    → a + n + k < 2 ^ 32
    → a + n < heap.allocated_end
    → Holds heap.index (ys ++ (a + n) ∷ zs)
    → All (λ y. y ≢ a + n) ys
    → (index' : OrderedArray) × (merge_right heap a
        ≡ ok (record heap { memory = joined_right heap.memory a n k; index = index' }))
      × Holds index' (ys ++ zs)
      × (index'.max_size ≡ heap.index.max_size)
unfolding merge_right
merge_right_hole heap a n k hole hole' ys zs first second some_hole low inside held others =
    let m = heap.memory in
    let m1 = store32 m (a + 8) (n + k) in
    let right : u32 (a + n) ≡ a + n = omega arith in
    let past : ltb (a + n) heap.allocated_end ≡ true = ground arith in
    let is : (hole' == 0) ≡ false = ground arith in
    let sum : u32 (n + k) ≡ n + k = omega arith in
    let size : load32 m1 (a + 8) ≡ n + k = load32-store32_self m (a + 8) (n + k) (omega arith) in
    let end : sub32 (u32 (a + (n + k))) 8 ≡ a + n + k - 8 = omega (arith, first.room) in
    let magic_there : load32 m1 (a + n + k - 8) ≡ magic =
      load32-store32_ne m (a + 8) (n + k) (a + n + k - 8) (omega (arith, first.room, second.room))
      ∙ ap (load32 m) (omega arith)
      ∙ second.footer in
    let back_at : a + n + k - 8 + 4 ≡ a + n + k - 4 = omega (arith, first.room) in
    let found = find_address_lem heap.index ys (a + n) zs held others in
    let in_index : (length ys == heap.index.size) ≡ false =
      ground (arith, held.count, length-append ys ((a + n) ∷ zs)) in
    let (index', removed, held', max) = remove-append ys (a + n) zs held in
    (
      index',
      rw
          (
            first.sized, right, second.header, second.hole_flag, second.sized, past, is, sum, size,
            end, magic_there, found, in_index, removed, back_at,
          )
          refl,
      held',
      max,
    )
