-- ===== src/Bitset.antt =====
-- src/datastructs/bitset.h and bitset.c: a set of numbers below `32 * size`, one digit each, in an
-- array of 32-bit words.
pub mod Laws
pub mod Find
pub mod Create
mod Examples
use evos.Base.{
  ℕ, zero, suc, ◌+◌, ◌-◌, ◌*◌, ◌/◌, ◌%◌, ◌^◌, Option, none, some, List, leb, ◌==◌, if◌then◌else◌,
  get_elem?, get_or, set, bit_and, bit_or, u32, ◌<<<◌, minus_one,
}
use evos.Memory.{memset, words}

pub record Bitset : Type 0 where
  pub base : List ℕ
  pub size : ℕ

abbrev pub outer_index : ℕ → ℕ
outer_index i = i / 32

abbrev pub inner_index : ℕ → ℕ
inner_index i = i % 32

abbrev pub all_used : ℕ
all_used = 0xFFFFFFFF

-- `bitset_create`; `region` is what stands in the memory that `kmalloc` returns. The size is
-- counted in words, and both `kmalloc` and `memset` take it for a number of bytes.
unfoldable pub create : List ℕ → ℕ → Bitset
create region size =
    let count : ℕ = u32 (size + 32 - 1) / 32 in
    record { base = words (memset region 0 count); size = count }

unfoldable pub set_bit : Bitset → ℕ → Bitset
set_bit s index = if leb s.size (outer_index index) then s else record s {
  base =
      set s.base (outer_index index)
        (bit_or (get_or s.base (outer_index index) 0) (1 <<< inner_index index));
}

-- `~(1 << inner)` as a 32-bit word
unfoldable pub clear_bit : Bitset → ℕ → Bitset
clear_bit s index = if leb s.size (outer_index index) then s else record s {
  base =
      set s.base (outer_index index)
        (bit_and (get_or s.base (outer_index index) 0) (2 ^ 32 - 1 - 2 ^ inner_index index));
}

-- The result is 0 or the digit in its place.
unfoldable pub check_set : Bitset → ℕ → ℕ
check_set s index =
    if leb s.size (outer_index index)
    then 0
    else bit_and (get_or s.base (outer_index index) 0) (1 <<< inner_index index)

-- The inner loop of `bitset_find_free`, with a number of rounds left.
unfoldable pub scan_word : Bitset → ℕ → ℕ → ℕ → Option ℕ
scan_word s outer zero inner = none
scan_word s outer (suc rounds) inner =
    let rest = scan_word s outer rounds (inner + 1) in
    if check_set s (u32 (outer * 32 + inner)) == 0 then some (u32 (outer * 32 + inner)) else rest

-- The outer loop.
unfoldable pub scan_words : Bitset → ℕ → ℕ → ℕ
scan_words s zero outer = minus_one
scan_words s (suc rounds) outer =
    let rest = scan_words s rounds (outer + 1) in
    if get_or s.base outer 0 == all_used
    then rest
    else elim (scan_word s outer 32 0) [ none ↦ rest | some index ↦ index ]

unfoldable pub find_free : Bitset → ℕ
find_free s = scan_words s s.size 0
