-- ===== src/Heap/Search.antt =====
-- `page_align_get_offset` and `find_hole`.
pub mod Laws
use evos.Base.{
  ℕ, zero, suc, ◌+◌, ◌-◌, ◌%◌, ◌^◌, Bool, true, false, Result, ok, ◌>>=◌, leb, ltb, u32, sub32,
  if◌then◌else◌, ◌==◌, minus_one,
}
use evos.Base.Memory.{Bytes}
use evos.OrderedArray
use evos.OrderedArray.{OrderedArray}
use evos.Heap.{header_size, footer_size, page_size, page_offset, size_at}

unfoldable pub page_align_get_offset : ℕ → ℕ
page_align_get_offset addr =
    let body = u32 (addr + header_size) in
    if page_offset body == 0
    then 0
    else (let offset = page_size - page_offset body in
        if leb offset (header_size + footer_size) then offset + page_size else offset)

-- An `int32_t` with 2 ^ 31 added.
abbrev pub biased : ℕ → ℕ
biased w = (w + 2 ^ 31) % 2 ^ 32

-- `(int32_t)a - (int32_t)b >= (int32_t)c`, as integers
abbrev pub signed_room : ℕ → ℕ → ℕ → Bool
signed_room a b c = leb (biased c + biased b) (biased a + 2 ^ 31)

-- The test of `find_hole` on the hole at `addr`.
unfoldable pub fits : Bytes → ℕ → Bool → ℕ → Bool
unfolding page_align_get_offset
fits m size true addr = signed_room (size_at m addr) (page_align_get_offset addr) size
fits m size false addr = leb size (size_at m addr)

-- The loop from index `i`, with a number of rounds left.
unfoldable pub find_hole_from : Bytes → OrderedArray → ℕ → Bool → ℕ → ℕ → Result ℕ
find_hole_from m index size page_align zero i = ok minus_one
find_hole_from m index size page_align (suc rounds) i =
    let rest = find_hole_from m index size page_align rounds (i + 1) in
    (do addr ← OrderedArray.index index i; if fits m size page_align addr then ok i else rest)

unfoldable pub find_hole : Bytes → OrderedArray → ℕ → Bool → Result ℕ
find_hole m index size page_align = find_hole_from m index size page_align index.size 0
