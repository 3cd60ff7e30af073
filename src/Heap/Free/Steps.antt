-- ===== src/Heap/Free/Steps.antt =====
-- The steps of heap_free, for each kind of neighbour.
use mathlib.Core.List.{Perm, perm_append_singleton, append-nil}
use mathlib.Core.List.Perm
use evos.Base.{
  ℕ, ◌+◌, ◌-◌, ◌^◌, ◌≤◌, ◌<◌, ◌≡◌, ◌⊎◌, inl, inr, refl, sym, ap, ◌∙◌, Bool, List, [], ◌∷◌, ◌++◌,
  arith, Result, ok, ◌>>=◌, if◌then◌else◌, length, length-append,
}
use evos.Base.Memory.{
  Bytes, load32, store32, load32-store32_ne, load32-store32_self, store32_outside,
}
use evos.OrderedArray
use evos.OrderedArray.{OrderedArray}
use evos.OrderedArray.Pass.{bubble, bubble-perm, length-bubble}
use evos.OrderedArray.Laws.{Holds, changed_element-Holds, insert-bubble}
use evos.Heap.{Heap, header_t_cmp}
use evos.Heap.Alloc.Blocks.{IsBlock, SameOutside, Tiles, Tiles-le, Tiles-SameOutside}
use evos.Heap.Free.{merge_left, merge_right}
use evos.Heap.Free.Join.{
  joined_left, joined_right, joined_left-IsBlock, joined_right-IsBlock, joined_left-SameOutside,
  joined_right-SameOutside,
}
use evos.Heap.Free.Merge.{
  merge_left_hole, merge_left_used, merge_left_start, merge_right_hole, merge_right_used,
  merge_right_end,
}
use evos.Heap.Free.Sides.{
  Side, edge, used_block, hole_block, blocks_of, kept_of, with_left, with_right, start_with, is_new,
  hole_at, added, without, Tiles-last,
}

-- The block with its flag set.
unfoldable pub freed_memory : Bytes → ℕ → Bytes
freed_memory m addr = store32 m (addr + 4) 1

module _ (m : Bytes) (addr size : ℕ) (block : IsBlock m addr size 0) where
  word_kept :
      (b : ℕ) → (b + 4 ≤ addr + 4) ⊎ (addr + 8 ≤ b) → load32 (freed_memory m addr) b ≡ load32 m b
  unfolding freed_memory
  word_kept b h = load32-store32_ne m (addr + 4) 1 b (omega arith)

  pub freed-IsBlock : IsBlock (freed_memory m addr) addr size 1
  unfolding freed_memory
  freed-IsBlock = record {
    header = word_kept addr (omega arith) ∙ block.header;
    hole_flag = load32-store32_self m (addr + 4) 1 (omega arith);
    sized = word_kept (addr + 8) (omega arith) ∙ block.sized;
    footer = word_kept (addr + size - 8) (omega (arith, block.room)) ∙ block.footer;
    back = word_kept (addr + size - 8 + 4) (omega (arith, block.room)) ∙ block.back;
    room = block.room;
  }

  pub freed-SameOutside : SameOutside addr (addr + size) m (freed_memory m addr)
  unfolding freed_memory
  freed-SameOutside q h = store32_outside m (addr + 4) 1 q (omega (arith, block.room))

module _ {Pages : Type 0} (heap : Heap Pages) (low : heap.allocated_end < 2 ^ 32) where
  -- What the first merge leaves of the block of `size` bytes at `addr`, which now starts at `a`.
  abbrev LeftDone : List ℕ → List (ℕ × ℕ) → Side → ℕ → ℕ → ℕ → Type 0
  LeftDone xs front left size addr a =
      (m' : Bytes) × (index' : OrderedArray) × (xs' : List ℕ) × (merge_left heap addr
          (addr + size - 8)
        ≡ ok (a, is_new left, record heap { memory = m'; index = index' }))
      × IsBlock m' a (with_left left size) 1
      × Tiles m' heap.allocated_start (front ++ kept_of left) a
      × SameOutside a (addr + size) heap.memory m'
      × Holds index' xs'
      × Perm xs' xs
      × (length xs' ≡ length xs)
      × (index'.max_size ≡ heap.index.max_size)

  changed_max :
      (less : ℕ → ℕ → Bool)
      → (OrderedArray.changed_element less heap.index).max_size ≡ heap.index.max_size
  unfolding OrderedArray.changed_element
  changed_max less = refl

  pub left_done :
      (xs : List ℕ) (front : List (ℕ × ℕ)) (left : Side) (size addr : ℕ)
      → 8 ≤ heap.allocated_start
      → addr + size < 2 ^ 32
      → Tiles heap.memory heap.allocated_start (front ++ blocks_of left) addr
      → (left ≡ edge → front ≡ [])
      → IsBlock heap.memory addr size 1
      → Holds heap.index xs
      → LeftDone xs front left size addr (start_with left addr)
  left_done xs front edge size addr high fits tiles first block held =
      let none_before : front ≡ [] = first refl in
      let at : heap.allocated_start ≡ addr = rw none_before at tiles in
      (
        heap.memory,
        heap.index,
        xs,
        merge_left_start heap addr (addr + size - 8) (sym at) (omega arith) (omega arith),
        block,
        tiles,
        (λ q h. refl),
        held,
        Perm.refl xs,
        refl,
        refl,
      )
  left_done xs front (used_block n) size addr high fits tiles first block held =
      let (middle, before, left, at) =
        Tiles-last heap.memory heap.allocated_start front n 0 addr tiles in
      (
        heap.memory,
        heap.index,
        xs,
        rw at at
            (merge_left_used heap middle n 0 0 left (middle + n + size - 8) refl (omega arith)),
        block,
        tiles,
        (λ q h. refl),
        held,
        Perm.refl xs,
        refl,
        refl,
      )
  left_done xs front (hole_block n) size addr high fits tiles first block held =
      let (middle, before, left, at) =
        Tiles-last heap.memory heap.allocated_start front n 1 addr tiles in
      let second : IsBlock heap.memory (middle + n) size 1 = rw at block in
      let above = Tiles-le heap.memory heap.allocated_start front middle before in
      let room : middle + n + size < 2 ^ 32 = omega arith in
      let m' = joined_left heap.memory middle n size in
      let same = joined_left-SameOutside heap.memory middle n size 1 1 left second room in
      let start : middle ≡ addr - n = omega arith in
      let done : LeftDone xs front (hole_block n) size (middle + n) middle = (
        m',
        OrderedArray.changed_element (header_t_cmp m') heap.index,
        bubble (header_t_cmp m') xs,
        merge_left_hole heap middle n size 1 left room above (λ e. omega arith) second,
        joined_left-IsBlock heap.memory middle n size 1 1 left second room,
        rw (append-nil front) (
            Tiles-SameOutside heap.memory m' middle (middle + n + size) heap.allocated_start front
              middle same (inl (omega arith)) before),
        same,
        changed_element-Holds (header_t_cmp m') held,
        bubble-perm (header_t_cmp m') xs,
        length-bubble (header_t_cmp m') xs,
        changed_max (header_t_cmp m'),
      ) in
      rw (sym start) (rw at at done)

  -- What the second merge leaves of the block of `n` bytes at `a`.
  abbrev RightDone : List ℕ → List ℕ → List (ℕ × ℕ) → Side → ℕ → ℕ → Type 0
  RightDone xs others back right n a =
      (m' : Bytes) × (index' : OrderedArray) × (zs : List ℕ) × (merge_right heap a
        ≡ ok (record heap { memory = m'; index = index' }))
      × IsBlock m' a (with_right right n) 1
      × Tiles m' (a + with_right right n) (kept_of right ++ back) heap.allocated_end
      × SameOutside a (a + with_right right n) heap.memory m'
      × Holds index' zs
      × Perm zs others
      × (length zs ≤ length xs)
      × (index'.max_size ≡ heap.index.max_size)

  pub right_done :
      (xs others : List ℕ) (back : List (ℕ × ℕ)) (right : Side) (n a : ℕ)
      → Tiles heap.memory (a + n) (blocks_of right ++ back) heap.allocated_end
      → (right ≡ edge → back ≡ [])
      → IsBlock heap.memory a n 1
      → Holds heap.index xs
      → Perm xs (hole_at right (a + n) ++ others)
      → RightDone xs others back right n a
  right_done xs others back edge n a tiles last block held perm =
      let none_behind : back ≡ [] = last refl in
      let at : a + n ≡ heap.allocated_end = rw none_behind at tiles in
      (
        heap.memory,
        heap.index,
        xs,
        merge_right_end heap a n 0 1 block at low,
        block,
        tiles,
        (λ q h. refl),
        held,
        perm,
        omega arith,
        refl,
      )
  right_done xs others back (used_block k) n a tiles last block held perm =
      let below = Tiles-le heap.memory (a + n + k) back heap.allocated_end tiles.1 in
      (
        heap.memory,
        heap.index,
        xs,
        merge_right_used heap a n k 1 block tiles.0 (omega arith),
        block,
        tiles,
        (λ q h. refl),
        held,
        perm,
        omega arith,
        refl,
      )
  right_done xs others back (hole_block k) n a tiles last block held perm =
      let below = Tiles-le heap.memory (a + n + k) back heap.allocated_end tiles.1 in
      let some_room = tiles.0.room in
      let (ys, zs, same_list, differ, rest) = without (a + n) xs others perm in
      let room : a + n + k < 2 ^ 32 = omega arith in
      let (index', merged, held', max) =
        merge_right_hole heap a n k 1 1 ys zs block tiles.0 (λ e. omega arith) room (omega arith)
          (rw same_list at held) differ in
      let m' = joined_right heap.memory a n k in
      let same = joined_right-SameOutside heap.memory a n k 1 1 block tiles.0 room in
      let sum : a + (n + k) ≡ a + n + k = omega arith in
      (
        m',
        index',
        ys ++ zs,
        merged,
        joined_right-IsBlock heap.memory a n k 1 1 block tiles.0 room,
        rw sum (
            Tiles-SameOutside heap.memory m' a (a + n + k) (a + n + k) back heap.allocated_end same
              (inr (omega arith)) tiles.1),
        rw sum same,
        held',
        rest,
        omega (arith, ap length same_list, length-append ys ((a + n) ∷ zs), length-append ys zs),
        max,
      )

module _ {Pages : Type 0} (heap : Heap Pages) where
  -- The last step, which adds the hole to the index unless it has grown an old one.
  unfoldable pub add_hole : Side → ℕ → Result (Heap Pages)
  add_hole left a =
      if is_new left
      then (do
        index' ← OrderedArray.insert (header_t_cmp heap.memory) heap.index a
        ok (record heap { index = index' }))
      else ok heap

  inserted_at :
      (addr : ℕ) (zs others : List ℕ)
      → Holds heap.index zs
      → Perm zs others
      → length zs < heap.index.max_size
      → (index' : OrderedArray) × (holes : List ℕ) × ((OrderedArray.insert
              (header_t_cmp heap.memory)
              heap.index
              addr
            >>= λ i. ok (record heap { index = i }))
          ≡ ok (record heap { index = index' }))
        × Holds index' holes
        × Perm holes (addr ∷ others)
  inserted_at addr zs others held perm room =
      let less = header_t_cmp heap.memory in
      let (index', inserted, held') = insert-bubble less addr zs held room in
      (
        index',
        bubble less (zs ++ addr ∷ []),
        rw inserted refl,
        held',
        Perm.trans (bubble-perm less (zs ++ addr ∷ []))
            (Perm.trans (perm_append_singleton addr zs) (Perm.cons addr perm)),
      )

  pub hole_added :
      (left : Side) (addr : ℕ) (zs others : List ℕ)
      → Holds heap.index zs
      → Perm zs others
      → length zs < heap.index.max_size
      → (index' : OrderedArray) × (holes : List ℕ) × (add_hole left (start_with left addr)
          ≡ ok (record heap { index = index' }))
        × Holds index' holes
        × Perm holes (added left addr ++ others)
  unfolding add_hole
  hole_added edge addr zs others held perm room = inserted_at addr zs others held perm room
  hole_added (used_block n) addr zs others held perm room =
      inserted_at addr zs others held perm room
  hole_added (hole_block n) addr zs others held perm room = (heap.index, zs, refl, held, perm)

pub start_lem :
    (m : Bytes) (start : ℕ) (front : List (ℕ × ℕ)) (left : Side) (size addr : ℕ)
    → Tiles m start (front ++ blocks_of left) addr
    → (start_with left addr + with_left left size ≡ addr + size) × (start_with left addr ≤ addr)
start_lem m start front edge size addr t = (refl, omega arith)
start_lem m start front (used_block n) size addr t = (refl, omega arith)
start_lem m start front (hole_block n) size addr t =
    let (middle, before, block, at) = Tiles-last m start front n 1 addr t in
    (omega arith, omega arith)

pub total_lem : (right : Side) (n : ℕ) → n ≤ with_right right n
total_lem edge n = omega arith
total_lem (used_block k) n = omega arith
total_lem (hole_block k) n = omega arith
