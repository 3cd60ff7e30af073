-- ===== src/Heap/RoundTrip/Examples.antt =====
-- A heap of one hole, from which twelve bytes are allocated and freed.
use mathlib.Core.List.{Perm, Mem}
use evos.Base.{
  ℕ, ◌+◌, ◌-◌, ◌/◌, ◌%◌, ◌^◌, ◌≡◌, refl, Bool, false, true, List, [], ◌∷◌, Result, ok, arith,
  get_or,
}
use evos.Base.Memory.{Bytes, load32}
use evos.OrderedArray.Laws.{Holds}
use evos.Heap.{Heap, magic, size_at}
use evos.Heap.Alloc.{heap_alloc}
use evos.Heap.Alloc.Blocks.{IsBlock, SameOutside, Tiles}
use evos.Heap.Free.{heap_free}
use evos.Heap.Free.Sides.{edge}
use evos.Heap.RoundTrip.{IsLoneHole, heap_free-heap_alloc}

-- A header and a footer of 96 bytes at 0x1000.
abbrev words : List ℕ
words =
    magic ∷ 1 ∷ 96 ∷ 0 ∷ 0 ∷ 0 ∷ 0 ∷ 0 ∷ 0 ∷ 0 ∷ 0 ∷ 0 ∷ 0 ∷ 0 ∷ 0 ∷ 0 ∷ 0 ∷ 0 ∷ 0 ∷ 0 ∷ 0 ∷ 0
    ∷ magic ∷ 0x1000 ∷ []

abbrev memory : Bytes
memory a = get_or words ((a - 0x1000) / 4) 0 / 256 ^ (a % 4) % 256

abbrev heap : Heap (Unit {0})
heap = record {
  memory = memory;
  index = record { array = 0x1000 ∷ 0 ∷ 0 ∷ 0 ∷ []; size = 1; max_size = 4 };
  allocated_start = 0x1000;
  allocated_end = 0x1060;
  max_addr = 0x2000;
  pages_user_mode = false;
  pages_writeable = true;
  pages = tt;
}

size_there : size_at memory 0x1000 ≡ 96
unfolding load32
size_there = refl

hole-IsBlock : IsBlock memory 0x1000 96 1
unfolding load32
hole-IsBlock = record {
  header = refl;
  hole_flag = refl;
  sized = refl;
  footer = refl;
  back = refl;
  room = omega arith;
}

abbrev hole-IsLoneHole : IsLoneHole heap 0x1000
hole-IsLoneHole = record {
  front = [];
  left = edge;
  right = edge;
  back = [];
  before = refl;
  block = rw size_there hole-IsBlock;
  after = rw size_there refl;
  first = λ e. refl;
  last = λ e. refl;
  full_left = refl;
  full_right = refl;
}

abbrev index-Holds : Holds heap.index (0x1000 ∷ [])
index-Holds = record {
  spare = 0 ∷ 0 ∷ 0 ∷ [];
  slots = refl;
  count = refl;
  capacity = omega arith;
  small = omega arith;
}

abbrev map_any : ℕ → Bool → Bool → Unit {0} → Result (Unit {0})
map_any addr kernel_mode writeable p = ok p

heap_free-heap_alloc_example :
    (addr : ℕ) × (heap' : Heap (Unit {0})) × (heap'' : Heap (Unit {0})) × Mem addr (0x1000 ∷ [])
    × (heap_alloc map_any heap 12 false ≡ ok (addr + 12, heap'))
    × (heap_free heap' (addr + 12) ≡ ok heap'')
    × ((blocks : List (ℕ × ℕ))
        → Tiles memory 0x1000 blocks 0x1060
        → Tiles heap''.memory 0x1000 blocks 0x1060)
    × (heap''.allocated_start ≡ 0x1000)
    × (heap''.allocated_end ≡ 0x1060)
    × SameOutside addr (addr + size_at memory addr) memory heap''.memory
    × ((holes : List ℕ) × Holds heap''.index holes × Perm holes (0x1000 ∷ []))
heap_free-heap_alloc_example =
    heap_free-heap_alloc map_any heap 12 (omega arith) (omega arith) (omega arith) (0x1000 ∷ [])
      index-Holds (omega arith) (tt, tt) (hole-IsLoneHole, tt) (λ h. omega (arith, h.0, size_there))
