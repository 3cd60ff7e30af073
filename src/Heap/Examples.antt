-- ===== src/Heap/Examples.antt =====
-- The kernel heap at concrete inputs.
use evos.Base.{
  ℕ, ◌+◌, ◌-◌, ◌<◌, ◌≡◌, refl, Bool, true, false, Result, ok, ◌>>=◌, [], ◌∷◌, arith, sub32,
}
use evos.Base.Memory.{Bytes, load32, store32}
use evos.OrderedArray.{insert, index, remove}
use evos.OrderedArray.Laws.{Holds}
use evos.Heap.{Heap, size_at, write_header, write_footer, header_t_cmp}
use evos.Heap.Search.{page_align_get_offset, fits, find_hole, find_hole_from}
use evos.Heap.Grow.{round_up_to_page, map_pages, expand}
use evos.Heap.Alloc.{heap_alloc, obtain_hole, take_hole, split_front, place_block, block_size}
use evos.Heap.Alloc.Laws.{IsHoleAt, IsServed, heap_alloc-IsServed}
use evos.Heap.Alloc.Aligned.{split_front_size_zero}
use evos.Heap.Free.{heap_free, merge_left, merge_right, find_address}

-- No pages are tracked, and mapping succeeds.
abbrev map_any : ℕ → Bool → Bool → Unit {0} → Result (Unit {0})
map_any addr kernel_mode writeable p = ok p

-- One hole of two pages, and room for four entries in the index.
abbrev fresh : Heap (Unit {0})
fresh = record {
  memory = write_header (λ _. 0) 4096 8192 1;
  index = record { array = 4096 ∷ 0 ∷ 0 ∷ 0 ∷ []; size = 1; max_size = 4 };
  allocated_start = 4096;
  allocated_end = 12288;
  max_addr = 16384;
  pages_user_mode = false;
  pages_writeable = true;
  pages = tt;
}

abbrev fresh-Holds : Holds fresh.index (4096 ∷ [])
fresh-Holds = record {
  spare = 0 ∷ 0 ∷ 0 ∷ [];
  slots = refl;
  count = refl;
  capacity = omega arith;
  small = omega arith;
}

fresh_size : size_at fresh.memory 4096 ≡ 8192
unfolding write_header load32 store32
fresh_size = refl

fresh_hole : IsHoleAt fresh 4096
fresh_hole = record { front = []; back = []; before = refl; after = rw fresh_size refl }

heap_alloc-IsServed_example :
    (addr : ℕ) × (heap' : Heap (Unit {0})) × (heap_alloc map_any fresh 100 false
      ≡ ok (addr + 12, heap'))
    × IsServed fresh (4096 ∷ []) 100 heap' addr
heap_alloc-IsServed_example =
    heap_alloc-IsServed map_any fresh 100 (omega arith) (omega arith) (4096 ∷ []) fresh-Holds
      (tt, tt) (fresh_hole, tt) (λ h. omega (arith, h.0, fresh_size))

offset_runs : page_align_get_offset 4096 ≡ 4084
unfolding page_align_get_offset
offset_runs = refl

-- The hole in front of an aligned block, and what its header says.
abbrev left_written : Bytes
left_written = write_footer (write_header fresh.memory 4096 4084 1) 8172 4096

abbrev split : Heap (Unit {0})
split = record fresh { memory = store32 left_written 4104 (sub32 (size_at left_written 4096) 4084) }

split_front_runs : split_front fresh 0 4096 8192 ≡ ok (8180, 4108, split)
unfolding split_front page_align_get_offset remove insert
split_front_runs = refl

split_front_size_zero_example :
    ◌≡◌ {A = ℕ} 8180 (4096 + page_align_get_offset 4096) × (size_at split.memory 4096 ≡ 0)
split_front_size_zero_example =
    split_front_size_zero fresh 0 4096 8192 low 8180 4108 split split_front_runs
  where
    low : 4096 + page_align_get_offset 4096 < 4294967296
    low = omega (arith, offset_runs)

expand_runs : expand map_any fresh 12288 ≡ ok (record fresh { allocated_end = 16384 })
unfolding expand map_pages round_up_to_page
expand_runs = refl

-- Two allocations lie one behind another, and a freed block is used again.
two_calls : Result (ℕ × ℕ)
two_calls = do
  (a, h) ← heap_alloc map_any fresh 4 false
  (b, h') ← heap_alloc map_any h 4 false
  h'' ← heap_free h' a
  (c, last) ← heap_alloc map_any h'' 4 false
  ok (b - a, c - a)

two_calls_run : two_calls ≡ ok (24, 0)
unfolding two_calls heap_alloc obtain_hole find_hole find_hole_from fits take_hole place_block
    block_size insert index remove write_header write_footer load32 store32 header_t_cmp heap_free
    merge_left merge_right find_address
two_calls_run = refl
