-- ===== src/Heap/Free/Examples.antt =====
-- A block between two holes.
use mathlib.Core.List.{Perm}
use mathlib.Core.List.Perm
use evos.Base.{ℕ, ◌-◌, ◌/◌, ◌%◌, ◌^◌, ◌≡◌, refl, false, true, List, [], ◌∷◌, ok, arith, get_or}
use evos.Base.Memory.{Bytes, load32}
use evos.OrderedArray.Laws.{Holds}
use evos.Heap.{Heap, magic}
use evos.Heap.Alloc.Blocks.{IsBlock, SameOutside, Tiles}
use evos.Heap.Free.{heap_free}
use evos.Heap.Free.Sides.{hole_block}
use evos.Heap.Free.Laws.{heap_free_lem}

-- Blocks of 32 bytes at 0x1000, 0x1020 and 0x1040.
abbrev words : List ℕ
words =
    magic ∷ 1 ∷ 32 ∷ 0 ∷ 0 ∷ 0 ∷ magic ∷ 0x1000 ∷ magic ∷ 0 ∷ 32 ∷ 0 ∷ 0 ∷ 0 ∷ magic ∷ 0x1020
    ∷ magic ∷ 1 ∷ 32 ∷ 0 ∷ 0 ∷ 0 ∷ magic ∷ 0x1040 ∷ []

abbrev memory : Bytes
memory a = get_or words ((a - 0x1000) / 4) 0 / 256 ^ (a % 4) % 256

left-IsBlock : IsBlock memory 0x1000 32 1
unfolding load32
left-IsBlock = record {
  header = refl;
  hole_flag = refl;
  sized = refl;
  footer = refl;
  back = refl;
  room = omega arith;
}

middle-IsBlock : IsBlock memory 0x1020 32 0
unfolding load32
middle-IsBlock = record {
  header = refl;
  hole_flag = refl;
  sized = refl;
  footer = refl;
  back = refl;
  room = omega arith;
}

right-IsBlock : IsBlock memory 0x1040 32 1
unfolding load32
right-IsBlock = record {
  header = refl;
  hole_flag = refl;
  sized = refl;
  footer = refl;
  back = refl;
  room = omega arith;
}

abbrev heap : Heap (Unit {0})
heap = record {
  memory = memory;
  index = record { array = 0x1040 ∷ 0x1000 ∷ 0 ∷ 0 ∷ []; size = 2; max_size = 4 };
  allocated_start = 0x1000;
  allocated_end = 0x1060;
  max_addr = 0x2000;
  pages_user_mode = false;
  pages_writeable = true;
  pages = tt;
}

index-Holds : Holds heap.index (0x1040 ∷ 0x1000 ∷ [])
index-Holds = record {
  spare = 0 ∷ 0 ∷ [];
  slots = refl;
  count = refl;
  capacity = refl;
  small = omega arith;
}

heap_free_lem_example :
    (heap' : Heap (Unit {0})) × (holes : List ℕ) × (heap_free heap 0x102C ≡ ok heap')
    × Tiles heap'.memory 0x1000 ((96, 1) ∷ []) 0x1060
    × (heap'.allocated_start ≡ 0x1000)
    × (heap'.allocated_end ≡ 0x1060)
    × SameOutside 0x1000 0x1060 memory heap'.memory
    × Holds heap'.index holes
    × Perm holes (0x1000 ∷ [])
heap_free_lem_example =
    heap_free_lem heap (0x1040 ∷ 0x1000 ∷ []) (0x1000 ∷ []) [] [] (hole_block 32) (hole_block 32) 32
      0x1020 (omega arith) (omega arith) (left-IsBlock, refl) (λ e. refl) middle-IsBlock
      (right-IsBlock, refl) (λ e. refl) index-Holds (omega arith) (Perm.refl (0x1040 ∷ 0x1000 ∷ []))
