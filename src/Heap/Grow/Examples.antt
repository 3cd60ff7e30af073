-- ===== src/Heap/Grow/Examples.antt =====
-- A heap of two pages that grows to four, with the mapped pages on record.
use evos.Base.{
  ℕ, ◌+◌, ◌*◌, ◌%◌, ◌≤◌, ◌<◌, ◌≡◌, refl, true, false, Bool, List, [], ◌∷◌, ◌++◌, Result, ok, panic,
  ◌>>=◌, arith,
}
use evos.Heap.{Heap}
use evos.Heap.Grow.{expand, map_pages, round_up_to_page}
use evos.Heap.Grow.Laws.{pages_from, map_each, expand_lem}

-- The calls of page_alloc, the last one at the end.
abbrev Calls : Type 0
Calls = List (ℕ × Bool × Bool)

abbrev record_call : ℕ → Bool → Bool → Calls → Result Calls
record_call addr kernel_mode writeable calls = ok (calls ++ (addr, kernel_mode, writeable) ∷ [])

abbrev two_pages : Heap Calls
two_pages = record {
  memory = λ a. 0;
  index = record { array = []; size = 0; max_size = 0 };
  allocated_start = 0x1000;
  allocated_end = 0x3000;
  max_addr = 0x6000;
  pages_user_mode = false;
  pages_writeable = true;
  pages = [];
}

expand_run :
    expand record_call two_pages 12300
    ≡ ok (record two_pages {
      allocated_end = 0x5000;
      pages = (0x3000, true, true) ∷ (0x4000, true, true) ∷ [];
    })
unfolding expand map_pages round_up_to_page
expand_run = refl

expand_lem_example :
    (size : ℕ) × (size % 4096 ≡ 0)
    × (12300 ≤ size)
    × (size < 12300 + 4096)
    × (0x1000 + size ≤ 0x3000 → expand record_call two_pages 12300 ≡ panic)
    × (0x6000 < 0x1000 + size → expand record_call two_pages 12300 ≡ panic)
    × (0x3000 < 0x1000 + size
        → 0x1000 + size ≤ 0x6000
        → (count : ℕ) × (0x1000 + size ≤ 0x3000 + 4096 * count)
          × (0x3000 + 4096 * count < 0x1000 + size + 4096)
          × (expand record_call two_pages 12300 ≡ (
              map_each record_call true true (pages_from 0x3000 count) [] >>= λ p.
              ok (record two_pages { allocated_end = 0x1000 + size; pages = p }))))
expand_lem_example =
    expand_lem record_call two_pages 12300 (omega arith) (omega arith) (omega arith)
