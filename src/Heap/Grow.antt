-- ===== src/Heap/Grow.antt =====
-- `expand`, and what `heap_alloc` does when no hole fits.
pub mod Laws
mod Examples
use evos.Base.{
  ℕ, zero, suc, ◌+◌, ◌-◌, ◌*◌, ◌/◌, ◌%◌, ◌^◌, Bool, true, false, not, Result, ok, ◌>>=◌, ◌>>◌,
  assert, leb, ltb, u32, sub32, if◌then◌else◌, ◌==◌, minus_one,
}
use evos.OrderedArray
use evos.Heap.{
  Heap, footer_size, page_size, page_offset, page_base, write_header, write_footer, header_t_cmp,
}
use evos.Heap.Search.{find_hole}

-- `new_size` up to the next multiple of the page size
unfoldable pub round_up_to_page : ℕ → ℕ
round_up_to_page new_size =
    if page_offset new_size == 0 then new_size else u32 (page_base new_size + page_size)

-- `map_page addr kernel_mode writeable` stands for
-- `page_alloc(get_page(addr, TRUE, kernel_directory), kernel_mode, writeable)`.
module _ {Pages : Type 0} (map_page : ℕ → Bool → Bool → Pages → Result Pages) where
  -- The loop of `expand` from `addr`, with a number of pages left.
  unfoldable pub map_pages : ℕ → ℕ → Bool → Bool → Pages → Result Pages
  map_pages zero addr kernel_mode writeable p = ok p
  map_pages (suc rounds) addr kernel_mode writeable p = do
    p' ← map_page addr kernel_mode writeable p
    map_pages rounds (addr + page_size) kernel_mode writeable p'

  unfoldable pub expand : Heap Pages → ℕ → Result (Heap Pages)
  expand heap requested = do
    let new_size = round_up_to_page requested
    let old_size = sub32 heap.allocated_end heap.allocated_start
    assert (ltb old_size new_size)
    assert (leb (u32 (heap.allocated_start + new_size)) heap.max_addr)
    p ←
        map_pages ((new_size - old_size + page_size - 1) / page_size)
          (heap.allocated_start + old_size) (not heap.pages_user_mode) heap.pages_writeable
          heap.pages
    ok (record heap { allocated_end = u32 (heap.allocated_start + new_size); pages = p })

  -- The branch of `heap_alloc` for `hole_index == -1`: the new pages become a hole.
  unfoldable pub grow : Heap Pages → ℕ → Bool → Result (ℕ × Heap Pages)
  grow heap new_size page_align = do
    let old_length = sub32 heap.allocated_end heap.allocated_start
    let header = heap.allocated_end
    grown ← expand heap (u32 (old_length + new_size + page_size))
    let new_length = sub32 grown.allocated_end grown.allocated_start
    let m =
        write_footer (write_header grown.memory header (sub32 new_length old_length) 1)
          (sub32 grown.allocated_end footer_size) header
    index' ← OrderedArray.insert (header_t_cmp m) grown.index header
    hole_index ← find_hole m index' new_size page_align
    assert (not (hole_index == minus_one))
    ok (hole_index, record grown { memory = m; index = index' })
