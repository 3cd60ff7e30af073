-- ===== src/Heap/Alloc.antt =====
-- `heap_alloc`, in the three parts that follow one another.
pub mod Blocks
pub mod Place
pub mod Aligned
pub mod Laws
use evos.Base.{
  ℕ, ◌+◌, ◌-◌, ◌%◌, ◌^◌, Bool, true, false, not, ◌&&◌, Result, ok, ◌>>=◌, ◌>>◌, assert, leb, ltb,
  u32, sub32, if◌then◌else◌, ◌==◌, minus_one,
}
use evos.Base.Memory.{load32, store32}
use evos.OrderedArray
use evos.Heap.{
  Heap, header_size, footer_size, page_offset, size_at, write_header, write_footer, header_t_cmp,
}
use evos.Heap.Search.{page_align_get_offset, find_hole}
use evos.Heap.Grow.{grow}

-- "Work out if we can NOT split the hole in two"
unfoldable pub block_size : ℕ → ℕ → ℕ
block_size hole_size new_size =
    if leb (sub32 hole_size new_size) (header_size + footer_size) then hole_size else new_size

module _ {Pages : Type 0} where
  -- The hole in front of a page-aligned block. `left_header` and `orig_hole_header` are one
  -- pointer: the size stored through the first is decreased through the second.
  unfoldable pub split_front : Heap Pages → ℕ → ℕ → ℕ → Result (ℕ × ℕ × Heap Pages)
  split_front heap hole_index addr hole_size = do
    let offset = page_align_get_offset addr
    let new_addr = u32 (addr + offset)
    assert (ltb (header_size + footer_size) offset)
    let left =
        write_footer (write_header heap.memory addr offset 1) (sub32 new_addr footer_size) addr
    let m = store32 left (addr + 8) (sub32 (size_at left addr) offset)
    removed ← OrderedArray.remove heap.index hole_index
    index' ← OrderedArray.insert (header_t_cmp m) removed addr
    ok (new_addr, sub32 hole_size offset, record heap { memory = m; index = index' })

  -- The part up to "And now we create the new block": the address and size that are left of the
  -- hole, which is out of the index.
  unfoldable pub take_hole : Heap Pages → ℕ → ℕ → ℕ → Bool → Result (ℕ × ℕ × Heap Pages)
  take_hole heap hole_index addr hole_size page_align =
      if page_align && not (page_offset (u32 (addr + header_size)) == 0)
      then split_front heap hole_index addr hole_size
      else do
        removed ← OrderedArray.remove heap.index hole_index
        ok (addr, hole_size, record heap { index = removed })

  -- The block itself, and the hole behind it.
  unfoldable pub place_block : Heap Pages → ℕ → ℕ → ℕ → Result (ℕ × Heap Pages)
  place_block heap addr hole_size new_size = do
    let footer = sub32 (u32 (addr + new_size)) footer_size
    let m = write_footer (write_header heap.memory addr new_size 0) footer addr
    assert (ltb footer heap.allocated_end)
    if sub32 hole_size new_size == 0
        then ok (u32 (addr + header_size), record heap { memory = m })
        else do
          assert (ltb (header_size + footer_size) (sub32 hole_size new_size))
          let right = u32 (addr + new_size)
          let right_footer = sub32 (u32 (addr + hole_size)) footer_size
          let m' =
              write_footer (write_header m right (sub32 hole_size new_size) 1) right_footer right
          assert (ltb right_footer heap.allocated_end)
          index' ← OrderedArray.insert (header_t_cmp m') heap.index right
          ok (u32 (addr + header_size), record heap { memory = m'; index = index' })

module _ {Pages : Type 0} (map_page : ℕ → Bool → Bool → Pages → Result Pages) where
  -- The first part: a hole that fits, from the index or from new pages.
  unfoldable pub obtain_hole : Heap Pages → ℕ → Bool → Result (ℕ × Heap Pages)
  obtain_hole heap new_size page_align = do
    hole_index ← find_hole heap.memory heap.index new_size page_align
    if hole_index == minus_one
        then grow map_page heap new_size page_align
        else ok (hole_index, heap)

  unfoldable pub heap_alloc : Heap Pages → ℕ → Bool → Result (ℕ × Heap Pages)
  heap_alloc heap size page_align = do
    let wanted = u32 (size + header_size + footer_size)
    (hole_index, heap') ← obtain_hole heap wanted page_align
    addr ← OrderedArray.index heap'.index hole_index
    let hole_size = size_at heap'.memory addr
    let new_size = block_size hole_size wanted
    (addr', hole_size', taken) ← take_hole heap' hole_index addr hole_size page_align
    place_block taken addr' hole_size' new_size
