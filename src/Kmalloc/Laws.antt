-- ===== src/Kmalloc/Laws.antt =====
-- Where kmalloc puts its blocks before the heap exists.
use evos.Base.{
  ℕ, ◌+◌, ◌%◌, ◌^◌, ◌≤◌, ◌<◌, ◌≡◌, refl, sym, Bool, true, Option, none, Result, ok, ◌>>=◌, List, [],
  ◌∷◌, arith,
}
use evos.Kmalloc.{linear_kmalloc, Kernel, kmalloc_aligned}

pub linear_kmalloc_lem :
    (first size : ℕ) (align : Bool)
    → first + 4096 + size < 2 ^ 32
    → (first ≤ (linear_kmalloc first size align).0)
      × ((linear_kmalloc first size align).0 < first + 4096)
      × (align ≡ true → (linear_kmalloc first size align).0 % 4096 ≡ 0)
      × ((linear_kmalloc first size align).1 ≡ (linear_kmalloc first size align).0 + size)
unfolding linear_kmalloc
linear_kmalloc_lem first size align h =
    (ground arith, ground arith, λ e. ground arith, ground arith)

-- Requests, each a size and whether the block is to be aligned.
abbrev pub Requests : Type 0
Requests = List (ℕ × Bool)

-- Room for the blocks, and a page for each of them to align it.
abbrev pub room_for : Requests → ℕ
room_for [] = 0
room_for ((size, align) ∷ rs) = size + 4096 + room_for rs

-- The blocks, address and size, lie one behind the other from `first` to `last`, and have the sizes
-- and the alignment that the requests ask for.
abbrev pub IsLaidOut : ℕ → Requests → List (ℕ × ℕ) → ℕ → Type 0
IsLaidOut first [] [] last = first ≡ last
IsLaidOut first [] (b ∷ bs) last = ⊥
IsLaidOut first (r ∷ rs) [] last = ⊥
IsLaidOut first ((size, align) ∷ rs) ((a, n) ∷ bs) last =
    (first ≤ a) × (n ≡ size) × (align ≡ true → a % 4096 ≡ 0) × IsLaidOut (a + n) rs bs last

module _ {Pages : Type 0} (map_page : ℕ → Bool → Bool → Pages → Result Pages)
    (page_address : Pages → ℕ → Option ℕ) where
  -- Before the heap exists, the physical address is the virtual one.
  kmalloc_aligned_before :
      (size : ℕ) (align : Bool) (k : Kernel Pages)
      → k.kernel_heap ≡ none
      → kmalloc_aligned map_page page_address size align k
        ≡ ok (
          (linear_kmalloc k.mem_first_unused size align).0,
          record k { mem_first_unused = (linear_kmalloc k.mem_first_unused size align).1 },
        )
  unfolding kmalloc_aligned
  kmalloc_aligned_before size align k e = rw e refl

  -- One call after the other.
  unfoldable pub kmalloc_all : Requests → Kernel Pages → Result (List (ℕ × ℕ) × Kernel Pages)
  kmalloc_all [] k = ok ([], k)
  kmalloc_all ((size, align) ∷ rs) k = do
    (a, k') ← kmalloc_aligned map_page page_address size align k
    (blocks, k'') ← kmalloc_all rs k'
    ok ((a, size) ∷ blocks, k'')

  -- As long as the memory below 2 ^ 32 lasts, calls of kmalloc before the heap exists all succeed;
  -- their blocks lie one behind the other from mem_first_unused on, so that no two of them meet,
  -- each is on a page boundary where that is asked for, and mem_first_unused is the end of the last.
  pub kmalloc_all-IsLaidOut :
      (rs : Requests) (k : Kernel Pages)
      → k.kernel_heap ≡ none
      → k.mem_first_unused + room_for rs < 2 ^ 32
      → (blocks : List (ℕ × ℕ)) × (k' : Kernel Pages) × (kmalloc_all rs k ≡ ok (blocks, k'))
        × IsLaidOut k.mem_first_unused rs blocks k'.mem_first_unused
        × (k'.kernel_heap ≡ none)
  unfolding kmalloc_all
  kmalloc_all-IsLaidOut [] k no_heap room = ([], k, refl, refl, no_heap)
  kmalloc_all-IsLaidOut ((size, align) ∷ rs) k no_heap room =
      let block = linear_kmalloc k.mem_first_unused size align in
      let (low, high, aligned, next) =
        linear_kmalloc_lem k.mem_first_unused size align (omega arith) in
      let (blocks, last, run, laid, none_yet) =
        kmalloc_all-IsLaidOut rs (record k { mem_first_unused = block.1 }) no_heap (omega arith) in
      (
        (block.0, size) ∷ blocks,
        last,
        rw (kmalloc_aligned_before size align k no_heap, run) refl,
        (low, refl, aligned, rw (sym next) laid),
        none_yet,
      )
