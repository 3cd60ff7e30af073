-- ===== src/Heap/Alloc/Place.antt =====
-- The last part of `heap_alloc`: the block, and the hole behind it.

use evos.Base.{ℕ, ◌+◌, ◌-◌, ◌^◌, ◌≤◌, ◌<◌, ◌≡◌, true, false, arith, ok, ltb, u32, sub32, ◌==◌}
use evos.OrderedArray
use evos.OrderedArray.{OrderedArray}
use evos.Heap.{Heap, header_t_cmp}
use evos.Heap.Alloc.{place_block}
use evos.Heap.Alloc.Blocks.{block_written}

module _ {Pages : Type 0} (heap : Heap Pages) (addr total size : ℕ) (below : addr + total < 2 ^ 32)
    (inside : addr + total ≤ heap.allocated_end) (room : 20 ≤ size) (within : size ≤ total) where
  block_end : u32 (addr + size) ≡ addr + size
  block_end = omega arith

  hole_end : u32 (addr + total) ≡ addr + total
  hole_end = omega arith

  body_at : u32 (addr + 12) ≡ addr + 12
  body_at = omega arith

  footer_of_block : sub32 (addr + size) 8 ≡ addr + size - 8
  footer_of_block = omega arith

  footer_of_hole : sub32 (addr + total) 8 ≡ addr + total - 8
  footer_of_hole = omega arith

  left_over : sub32 total size ≡ total - size
  left_over = omega arith

  block_inside : ltb (addr + size - 8) heap.allocated_end ≡ true
  block_inside = ground arith

  hole_inside : ltb (addr + total - 8) heap.allocated_end ≡ true
  hole_inside = ground arith

  -- A block that takes the whole hole.
  pub place_whole :
      total ≡ size
      → place_block heap addr total size
        ≡ ok (addr + 12, record heap { memory = block_written heap.memory addr size 0 })
  unfolding place_block
  place_whole e =
      let nothing : (total - size == 0) ≡ true = ground arith in
      rw (block_end, footer_of_block, body_at, left_over, block_inside, nothing)

  -- A block at the front, and a hole of what is left over.
  pub place_split :
      (t : OrderedArray)
      → size + 20 < total
      → let m =
          block_written (block_written heap.memory addr size 0) (addr + size) (total - size) 1 in
        OrderedArray.insert (header_t_cmp m) heap.index (addr + size) ≡ ok t
        → place_block heap addr total size ≡ ok (addr + 12, record heap { memory = m; index = t })
  unfolding place_block
  place_split t more e =
      let something : (total - size == 0) ≡ false = ground arith in
      let enough : ltb 20 (total - size) ≡ true = ground arith in
      let last : addr + size + (total - size) - 8 ≡ addr + total - 8 = omega arith in
      let e' = rw last at e in
      rw (
        block_end, hole_end, footer_of_block, footer_of_hole, body_at, left_over, block_inside,
        something, enough, hole_inside, last, e',
      )
