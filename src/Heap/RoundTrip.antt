-- ===== src/Heap/RoundTrip.antt =====
-- heap_alloc and then heap_free.
mod Freed
mod Examples
use mathlib.Core.List.{Perm, append_assoc, Mem, mem-cons_self, mem_of_ne_of_mem, not-mem-nil}
use mathlib.Core.List.Perm
use evos.Base.{
  ℕ, ◌+◌, ◌-◌, ◌^◌, ◌≤◌, ◌<◌, ◌≡◌, refl, sym, ap, ◌∙◌, Bool, true, false, List, [], ◌∷◌, ◌++◌,
  arith, ok, Result, length, leb, Bool-cases, inl, inr, All, All-map, ℕ_discrete,
}
use evos.Base.Memory.{Bytes}
use evos.OrderedArray.Laws.{Holds}
use evos.Heap.{Heap, size_at, header_t_cmp}
use evos.Heap.Alloc.{heap_alloc}
use evos.OrderedArray.Order.{IsSorted}
use evos.Heap.Alloc.Blocks.{IsBlock, SameOutside, Tiles, Tiles-le, Tiles-append}
use evos.Heap.Alloc.Laws.{IsHoleAt, IsServed, pieces, new_holes, heap_alloc-IsServed}
use evos.Heap.Free.{heap_free}
use evos.Heap.Free.Sides.{
  Side, edge, used_block, hole_block, blocks_of, kept_of, with_left, with_right, start_with, is_new,
  hole_at, added,
}
use evos.Heap.Free.Laws.{heap_free_lem}
use evos.Heap.RoundTrip.Freed.{heap_free-IsServed}

-- A memory has only one run of blocks between two addresses.
Tiles-unique :
    (m : Bytes) (start : ℕ) (xs ys : List (ℕ × ℕ)) (end : ℕ)
    → Tiles m start xs end
    → Tiles m start ys end
    → xs ≡ ys
Tiles-unique m start [] [] end t u = refl
Tiles-unique m start [] ((size, hole) ∷ ys) end t u =
    let more = Tiles-le m (start + size) ys end u.1 in
    let room : 20 ≤ size = u.0.room in absurd (omega arith)
Tiles-unique m start ((size, hole) ∷ xs) [] end t u =
    let more = Tiles-le m (start + size) xs end t.1 in
    let room : 20 ≤ size = t.0.room in absurd (omega arith)
Tiles-unique m start ((size, hole) ∷ xs) ((size', hole') ∷ ys) end (b, t) (b', u) =
    let same_size : size' ≡ size = sym b'.sized ∙ b.sized in
    let same_flag : hole' ≡ hole = sym b'.hole_flag ∙ b.hole_flag in
    let u' : Tiles m (start + size) ys end = rw same_size at u in
    let rest = Tiles-unique m (start + size) xs ys end t u' in rw (same_size, same_flag, rest) refl

-- A hole between blocks that fill the heap, neither of whose neighbours is a hole.
pub record IsLoneHole {Pages : Type 0} (heap : Heap Pages) (a : ℕ) : Type 0 where
  pub front : List (ℕ × ℕ)
  pub left : Side
  pub right : Side
  pub back : List (ℕ × ℕ)
  pub before : Tiles heap.memory heap.allocated_start (front ++ blocks_of left) a
  pub block : IsBlock heap.memory a (size_at heap.memory a) 1
  pub after :
      Tiles heap.memory (a + size_at heap.memory a) (blocks_of right ++ back) heap.allocated_end
  pub first : left ≡ edge → front ≡ []
  pub last : right ≡ edge → back ≡ []
  pub full_left : is_new left ≡ true
  pub full_right : is_new right ≡ true

lone-IsHoleAt : {Pages : Type 0} (heap : Heap Pages) (a : ℕ) → IsLoneHole heap a → IsHoleAt heap a
lone-IsHoleAt heap a lone = record {
  front = lone.front ++ blocks_of lone.left;
  back = blocks_of lone.right ++ lone.back;
  before = lone.before;
  after = lone.after;
}

All-mem : (P : ℕ → Type 0) (xs : List ℕ) (x : ℕ) → All P xs → Mem x xs → P x
All-mem P [] x all h = absurd (not-mem-nil h)
All-mem P (y ∷ xs) x all h = elim (ℕ_discrete x y) [
  | yes e ↦ rw e all.0
  | no ne ↦ All-mem P xs x all.1 (mem_of_ne_of_mem ne h)
]

module _ {Pages : Type 0} (map_page : ℕ → Bool → Bool → Pages → Result Pages) (heap : Heap Pages)
    (size : ℕ) (small : size + 20 < 2 ^ 32) (low : heap.allocated_end < 2 ^ 32)
    (high : 8 ≤ heap.allocated_start) where
  -- In a heap that lies above the first eight bytes and ends below 2 ^ 32, whose index has a free slot
  -- and holds, in the order of their sizes, holes that have no hole as a neighbour, one of
  -- them with room for the bytes with a header and a footer: heap_alloc without page alignment
  -- succeeds, heap_free of the address that it gave succeeds, and the heap is then as before. Each
  -- run of blocks and holes that filled it fills it again, its bounds are the same, no byte has
  -- changed but those of one hole, and the index holds the same holes, in some order.
  pub heap_free-heap_alloc :
      (xs : List ℕ)
      → Holds heap.index xs
      → length xs < heap.index.max_size
      → IsSorted (header_t_cmp heap.memory) xs
      → All (IsLoneHole heap) xs
      → ¬ All (λ a. size_at heap.memory a < size + 20) xs
      → (addr : ℕ) × (heap' : Heap Pages) × (heap'' : Heap Pages) × Mem addr xs
        × (heap_alloc map_page heap size false ≡ ok (addr + 12, heap'))
        × (heap_free heap' (addr + 12) ≡ ok heap'')
        × ((blocks : List (ℕ × ℕ))
            → Tiles heap.memory heap.allocated_start blocks heap.allocated_end
            → Tiles heap''.memory heap.allocated_start blocks heap.allocated_end)
        × (heap''.allocated_start ≡ heap.allocated_start)
        × (heap''.allocated_end ≡ heap.allocated_end)
        × SameOutside addr (addr + size_at heap.memory addr) heap.memory heap''.memory
        × ((holes : List ℕ) × Holds heap''.index holes × Perm holes xs)
  heap_free-heap_alloc xs held free_slot sorted lone some_fit =
      let (addr, heap', run, served) =
        heap_alloc-IsServed map_page heap size small low xs held sorted
          (All-map _ _ xs (lone-IsHoleAt heap) lone) some_fit in
      let there : Mem addr xs = (Perm.mem_iff served.taken).1 mem-cons_self in
      let hole : IsLoneHole heap addr = All-mem (IsLoneHole heap) xs addr lone there in
      let in_front : served.hole.front ≡ hole.front ++ blocks_of hole.left =
        Tiles-unique heap.memory heap.allocated_start served.hole.front
          (hole.front ++ blocks_of hole.left) addr served.hole.before hole.before in
      let behind : served.hole.back ≡ blocks_of hole.right ++ hole.back =
        Tiles-unique heap.memory (addr + size_at heap.memory addr) served.hole.back
          (blocks_of hole.right ++ hole.back) heap.allocated_end served.hole.after hole.after in
      let room : length served.holes < heap'.index.max_size =
        omega (arith, served.few, served.same_max) in
      let (heap'', freed, (tiles, starts, ends, same, index)) =
        heap_free-IsServed heap xs size addr heap' served served.best.0 low high room hole.front
          hole.left in_front hole.first hole.full_left hole.back hole.right behind hole.last
          hole.full_right in
      let whole =
        Tiles-append heap.memory heap.allocated_start served.hole.front addr
          ((size_at heap.memory addr, 1) ∷ served.hole.back) heap.allocated_end served.hole.before
          (hole.block, served.hole.after) in
      (
        addr,
        heap',
        heap'',
        there,
        run,
        freed,
        (λ blocks filled.
            let same_blocks =
              Tiles-unique heap.memory heap.allocated_start blocks
                (served.hole.front ++ (size_at heap.memory addr, 1) ∷ served.hole.back)
                heap.allocated_end filled whole in
            rw same_blocks tiles),
        starts,
        ends,
        same,
        index,
      )
