-- ===== src/Heap/Alloc/Aligned.antt =====
-- The hole in front of a page-aligned block.
use evos.Base.{
  ℕ, ◌+◌, ◌-◌, ◌^◌, ◌<◌, ◌≡◌, ap, ◌∙◌, ok, arith, u32, sub32, ltb, first_part, assert, assert-true,
  ltb→lt,
}
use evos.Base.Memory.{Bytes, store32, load32-store32_self}
use evos.OrderedArray
use evos.OrderedArray.{OrderedArray}
use evos.Heap.{Heap, size_at, write_footer, write_header}
use evos.Heap.Search.{page_align_get_offset}
use evos.Heap.Alloc.{split_front}
use evos.Heap.Alloc.Blocks.{write-IsBlock}

module _ {Pages : Type 0} (heap : Heap Pages) (hole_index addr hole_size : ℕ)
    (low : addr + page_align_get_offset addr < 2 ^ 32) where
  abbrev offset : ℕ
  offset = page_align_get_offset addr

  abbrev left : Bytes
  left = write_footer (write_header heap.memory addr offset 1) (sub32 (u32 (addr + offset)) 8) addr

  left_size : 20 < offset → size_at left addr ≡ offset
  left_size far =
      let place : sub32 (u32 (addr + offset)) 8 ≡ addr + offset - 8 = omega arith in
      rw place (write-IsBlock heap.memory addr offset 1 (omega arith) low (omega arith)).sized

  left_zero :
      20 < offset → size_at (store32 left (addr + 8) (sub32 (size_at left addr) offset)) addr ≡ 0
  left_zero far =
      load32-store32_self left (addr + 8) (sub32 (size_at left addr) offset) (omega arith)
      ∙ ap (λ n. sub32 n offset) (left_size far)
      ∙ omega arith

  -- When `heap_alloc` makes a hole in front of a page-aligned block, the size is stored into the
  -- hole's header and then subtracted from the same field: whatever the hole's size, its header
  -- says 0.
  pub split_front_size_zero :
      (addr' hole_size' : ℕ) (heap' : Heap Pages)
      → split_front heap hole_index addr hole_size ≡ ok (addr', hole_size', heap')
      → (addr' ≡ addr + page_align_get_offset addr) × (size_at heap'.memory addr ≡ 0)
  unfolding split_front
  split_front_size_zero addr' hole_size' heap' e =
      let asserted = first_part (assert (ltb 20 offset)) _ e in
      let far : 20 < offset = ltb→lt 20 offset (assert-true (ltb 20 offset) asserted.1) in
      let removed = first_part (OrderedArray.remove heap.index hole_index) _ asserted.2 in
      let inserted = first_part (OrderedArray.insert _ removed.0 addr) _ removed.2 in
      let there : u32 (addr + offset) ≡ addr' = cc inserted.2 in
      let memory : store32 left (addr + 8) (sub32 (size_at left addr) offset) ≡ heap'.memory =
        cc inserted.2 in
      (omega arith, rw (← memory) (left_zero far))
