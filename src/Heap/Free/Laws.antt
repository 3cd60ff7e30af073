-- ===== src/Heap/Free/Laws.antt =====
-- heap_free between its neighbours.
use mathlib.Core.List.{Perm, append_assoc}
use mathlib.Core.List.Perm
use evos.Base.{
  ℕ, ◌+◌, ◌-◌, ◌^◌, ◌≤◌, ◌<◌, ◌≡◌, inl, inr, refl, sym, ◌∙◌, false, List, [], ◌∷◌, ◌++◌, arith, ok,
  ◌==◌, u32, sub32, length,
}
use evos.OrderedArray.Laws.{Holds}
use evos.Heap.{Heap}
use evos.Heap.Alloc.Blocks.{IsBlock, SameOutside, Tiles, Tiles-le, Tiles-SameOutside, Tiles-append}
use evos.Heap.Free.{merge_left, merge_right, heap_free}
use evos.Heap.Free.Sides.{
  Side, edge, blocks_of, kept_of, with_left, with_right, start_with, is_new, hole_at, added,
}
use evos.Heap.Free.Steps.{
  freed_memory, freed-IsBlock, freed-SameOutside, left_done, right_done, hole_added, add_hole,
  start_lem, total_lem,
}

module _ {Pages : Type 0} (heap : Heap Pages) where
  -- heap_free up to the last step.
  reach_merges :
      (addr size a : ℕ) (left : Side) (merged joined : Heap Pages)
      → addr + size < 2 ^ 32
      → IsBlock heap.memory addr size 0
      → merge_left (record heap { memory = freed_memory heap.memory addr }) addr (addr + size - 8)
        ≡ ok (a, is_new left, merged)
      → merge_right merged a ≡ ok joined
      → heap_free heap (addr + 12) ≡ add_hole joined left a
  unfolding heap_free freed_memory add_hole
  reach_merges addr size a left merged joined low block first second =
      let nonnull : (addr + 12 == 0) ≡ false = ground arith in
      let header : sub32 (addr + 12) 12 ≡ addr = omega (arith, block.room) in
      let footer : sub32 (u32 (addr + size)) 8 ≡ addr + size - 8 = omega (arith, block.room) in
      rw (nonnull, header, block.sized, footer, block.header, block.footer, first, second) refl

  -- heap_free of the address behind the header of a block in use, in a heap of blocks that touch,
  -- which lies above the first eight bytes and ends below 2 ^ 32, with an index that has a free slot and
  -- holds the hole on the right of the block, if there is one: it succeeds. The block
  -- becomes a hole, together with each of its two neighbours that is a hole; the other blocks stay
  -- and still fill the heap, whose bounds stay; no byte outside the joined hole changes; and
  -- the index holds the holes that it held, without the one on the right, and with the new
  -- hole unless the one on the left has grown instead.
  pub heap_free_lem :
      (xs others : List ℕ) (front back : List (ℕ × ℕ)) (left right : Side) (size addr : ℕ)
      → heap.allocated_end < 2 ^ 32
      → 8 ≤ heap.allocated_start
      → Tiles heap.memory heap.allocated_start (front ++ blocks_of left) addr
      → (left ≡ edge → front ≡ [])
      → IsBlock heap.memory addr size 0
      → Tiles heap.memory (addr + size) (blocks_of right ++ back) heap.allocated_end
      → (right ≡ edge → back ≡ [])
      → Holds heap.index xs
      → length xs < heap.index.max_size
      → Perm xs (hole_at right (addr + size) ++ others)
      → let total = with_right right (with_left left size) in
        let a = start_with left addr in
        (heap' : Heap Pages) × (holes : List ℕ) × (heap_free heap (addr + 12) ≡ ok heap')
        × Tiles heap'.memory heap.allocated_start
            (front ++ (kept_of left ++ (total, 1) ∷ (kept_of right ++ back)))
            heap.allocated_end
        × (heap'.allocated_start ≡ heap.allocated_start)
        × (heap'.allocated_end ≡ heap.allocated_end)
        × SameOutside a (a + total) heap.memory heap'.memory
        × Holds heap'.index holes
        × Perm holes (added left addr ++ others)
  heap_free_lem xs others front back left right size addr low high before first block after last
        held room perm =
      let below =
        Tiles-le heap.memory (addr + size) (blocks_of right ++ back) heap.allocated_end after in
      let start = heap.allocated_start in
      let freed = record heap { memory = freed_memory heap.memory addr } in
      let same = freed-SameOutside heap.memory addr size block in
      let a = start_with left addr in
      let n = with_left left size in
      let (end_left, start_le) = start_lem heap.memory start front left size addr before in
      let grows = total_lem right n in
      let before' =
        Tiles-SameOutside heap.memory freed.memory addr (addr + size) start
          (front ++ blocks_of left) addr same (inl (omega arith)) before in
      let (m1, i1, xs1, run1, block1, tiles1, same1, held1, perm1, size1, max1) =
        left_done freed low xs front left size addr high (omega arith) before' first
          (freed-IsBlock heap.memory addr size block) held in
      let merged = record freed { memory = m1; index = i1 } in
      let outside : SameOutside a (addr + size) heap.memory m1 =
        λ q h. same1 q h ∙ same q (omega arith) in
      let after1 : Tiles m1 (a + n) (blocks_of right ++ back) heap.allocated_end = rw end_left (
        Tiles-SameOutside heap.memory m1 a (addr + size) (addr + size) (blocks_of right ++ back)
          heap.allocated_end outside (inr (omega arith)) after) in
      let perm' : Perm xs1 (hole_at right (a + n) ++ others) =
        rw end_left (Perm.trans perm1 perm) in
      let (m2, i2, zs, run2, block2, tiles2, same2, held2, perm2, size2, max2) =
        right_done merged low xs1 others back right n a after1 last block1 held1 perm' in
      let joined = record merged { memory = m2; index = i2 } in
      let (i3, holes, run3, held3, perm3) =
        hole_added joined left addr zs others held2 perm2 (omega arith) in
      let front_tiles =
        Tiles-SameOutside m1 m2 a (a + with_right right n) start (front ++ kept_of left) a same2
          (inl (omega arith)) tiles1 in
      (
        record joined { index = i3 },
        holes,
        reach_merges addr size a left merged joined (omega arith) block run1 run2 ∙ run3,
        rw
            (sym (
              append_assoc front (kept_of left)
                ((with_right right n, 1) ∷ (kept_of right ++ back))))
            (Tiles-append m2 start (front ++ kept_of left) a
              ((with_right right n, 1) ∷ (kept_of right ++ back)) heap.allocated_end front_tiles
              (block2, tiles2)),
        refl,
        refl,
        (λ q h. same2 q h ∙ outside q (omega arith)),
        held3,
        perm3,
      )
