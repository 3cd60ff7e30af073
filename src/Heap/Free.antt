-- ===== src/Heap/Free.antt =====
-- `heap_free` and `heap_create`.
pub mod Join
pub mod Sides
pub mod Merge
pub mod Steps
pub mod Laws
mod Examples
use evos.Base.{
  ℕ, zero, suc, ◌+◌, ◌*◌, Bool, true, false, not, ◌&&◌, Result, ok, ◌>>=◌, ◌>>◌, assert, ltb, u32,
  sub32, if◌then◌else◌, ◌==◌,
}
use evos.Base.Memory.{Bytes, store32}
use evos.OrderedArray
use evos.OrderedArray.{OrderedArray}
use evos.Heap.{
  Heap, magic, header_size, footer_size, page_size, page_offset, page_base, header_magic, is_hole,
  size_at, footer_magic, footer_header, write_header, header_t_cmp,
}

-- The loop that looks for an address in the index, with a number of rounds left; the index size
-- stands for "not found".
unfoldable pub find_address : OrderedArray → ℕ → ℕ → ℕ → Result ℕ
find_address t addr zero i = ok t.size
find_address t addr (suc rounds) i =
    let rest = find_address t addr rounds (i + 1) in
    (do here ← OrderedArray.index t i; if here == addr then ok i else rest)

module _ {Pages : Type 0} where
  -- "Merge left?": the header and footer of the merged block, and whether it is to be added.
  unfoldable pub merge_left : Heap Pages → ℕ → ℕ → Result (ℕ × Bool × Heap Pages)
  merge_left heap header footer =
      let left_footer = sub32 header footer_size in
      let left = footer_header heap.memory left_footer in
      if ltb heap.allocated_start left_footer
        && (footer_magic heap.memory left_footer == magic)
        && not (is_hole heap.memory left == 0)
      then (do
        assert (header_magic heap.memory left == magic)
        let m = store32 heap.memory (footer + 4) left
        let left' = footer_header m left_footer
        let m' = store32 m (left' + 8) (u32 (size_at m left' + size_at m header))
        let header' = footer_header m' left_footer
        let index' = OrderedArray.changed_element (header_t_cmp m') heap.index
        ok (header', false, record heap { memory = m'; index = index' }))
      else ok (header, true, heap)

  -- "Merge right?"
  unfoldable pub merge_right : Heap Pages → ℕ → Result (Heap Pages)
  merge_right heap header =
      let right = u32 (header + size_at heap.memory header) in
      if ltb right heap.allocated_end
        && (header_magic heap.memory right == magic)
        && not (is_hole heap.memory right == 0)
      then (do
        let m =
            store32 heap.memory (header + 8)
              (u32 (size_at heap.memory header + size_at heap.memory right))
        let footer = sub32 (u32 (header + size_at m header)) footer_size
        assert (footer_magic m footer == magic)
        let m' = store32 m (footer + 4) header
        i ← find_address heap.index right heap.index.size 0
        assert (not (i == heap.index.size))
        index' ← OrderedArray.remove heap.index i
        ok (record heap { memory = m'; index = index' }))
      else ok heap

  unfoldable pub heap_free : Heap Pages → ℕ → Result (Heap Pages)
  heap_free heap ptr = if ptr == 0 then ok heap else (do
    let header = sub32 ptr header_size
    let footer = sub32 (u32 (header + size_at heap.memory header)) footer_size
    assert (header_magic heap.memory header == magic)
    assert (footer_magic heap.memory footer == magic)
    let freed = record heap { memory = store32 heap.memory (header + 4) 1 }
    (header', do_add, merged) ← merge_left freed header footer
    joined ← merge_right merged header'
    if do_add
        then (do
          index' ← OrderedArray.insert (header_t_cmp joined.memory) joined.index header'
          ok (record joined { index = index' }))
        else ok joined)

  -- `heap_create`; the first hole gets a header, and no footer. The `heap_t` itself is a value here.
  unfoldable pub heap_create : Bytes → Pages → ℕ → ℕ → ℕ → Bool → Bool → Result (Heap Pages)
  heap_create memory pages start end max_addr user_mode writeable = do
    assert (page_offset start == 0)
    assert (page_offset end == 0)
    let index = OrderedArray.create_at 2048
    let body = u32 (start + 4 * 2048)
    let start' = if page_offset body == 0 then body else u32 (page_base body + page_size)
    let m = write_header memory start' (sub32 end start') 1
    index' ← OrderedArray.insert (header_t_cmp m) index start'
    ok (record {
      memory = m;
      index = index';
      allocated_start = start';
      allocated_end = end;
      max_addr = max_addr;
      pages_user_mode = user_mode;
      pages_writeable = writeable;
      pages = pages;
    })
