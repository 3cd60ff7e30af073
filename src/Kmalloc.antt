-- ===== src/Kmalloc.antt =====
-- src/kmalloc.c: kmalloc before and after the kernel heap exists.
pub mod Laws
mod Examples
use evos.Base.{
  ℕ, ◌+◌, ◌-◌, ◌*◌, ◌%◌, ◌^◌, Bool, true, false, not, ◌&&◌, ◌==◌, if◌then◌else◌, Option, none, some,
  Result, ok, ◌>>=◌, checked, u32,
}
use evos.Heap.{Heap, page_size}
use evos.Heap.Alloc.{heap_alloc}
use evos.Heap.Free.{heap_free}

-- `__linear_kmalloc`: the address, which is also the physical one, and the next `mem_first_unused`.
unfoldable pub linear_kmalloc : ℕ → ℕ → Bool → ℕ × ℕ
linear_kmalloc mem_first_unused size align =
    let res =
      if align && not (mem_first_unused % page_size == 0)
      then u32 (mem_first_unused - mem_first_unused % page_size + page_size)
      else mem_first_unused in
    (res, u32 (res + size))

-- The variables `kernel_heap`, a null pointer before `heap_create`, and `mem_first_unused`.
pub record Kernel (Pages : Type 0) : Type 0 where
  pub kernel_heap : Option (Heap Pages)
  pub mem_first_unused : ℕ

-- `map_page` is the paging code that the heap calls, and `page_address` the field `address` of
-- `get_page(new, FALSE, kernel_directory)`, none for a null pointer.
module _ {Pages : Type 0} (map_page : ℕ → Bool → Bool → Pages → Result Pages)
    (page_address : Pages → ℕ → Option ℕ) where
  -- `*physical` for an address of the heap; the null pointer is not tested.
  unfoldable pub physical_of : Pages → ℕ → Result ℕ
  physical_of pages address = do
    frame ← checked (page_address pages address)
    ok (u32 (frame * page_size + address % page_size))

  -- `__kmalloc` where `physical` is a null pointer
  unfoldable pub kmalloc_aligned : ℕ → Bool → Kernel Pages → Result (ℕ × Kernel Pages)
  kmalloc_aligned size align k = elim k.kernel_heap [
    | some heap ↦ do
      (address, heap') ← heap_alloc map_page heap size align
      ok (address, record k { kernel_heap = some heap' })
    | none ↦
        let (res, next) = linear_kmalloc k.mem_first_unused size align in
        ok (res, record k { mem_first_unused = next })
  ]

  -- `__kmalloc` where `physical` is not null: the address, and `*physical`
  unfoldable pub kmalloc_physical : ℕ → Bool → Kernel Pages → Result (ℕ × ℕ × Kernel Pages)
  unfolding physical_of
  kmalloc_physical size align k = elim k.kernel_heap [
    | some heap ↦ do
      (address, heap') ← heap_alloc map_page heap size align
      physical ← physical_of heap'.pages address
      ok (address, physical, record k { kernel_heap = some heap' })
    | none ↦
        let (res, next) = linear_kmalloc k.mem_first_unused size align in
        ok (res, res, record k { mem_first_unused = next })
  ]

  unfoldable pub kmalloc : ℕ → Kernel Pages → Result (ℕ × Kernel Pages)
  kmalloc size k = kmalloc_aligned size false k

  unfoldable pub kmalloc_a : ℕ → Kernel Pages → Result (ℕ × Kernel Pages)
  kmalloc_a size k = kmalloc_aligned size true k

  unfoldable pub kmalloc_p : ℕ → Kernel Pages → Result (ℕ × ℕ × Kernel Pages)
  kmalloc_p size k = kmalloc_physical size false k

  unfoldable pub kmalloc_ap : ℕ → Kernel Pages → Result (ℕ × ℕ × Kernel Pages)
  kmalloc_ap size k = kmalloc_physical size true k

-- Before the heap exists nothing is freed.
unfoldable pub kfree : {Pages : Type 0} → ℕ → Kernel Pages → Result (Kernel Pages)
kfree ptr k = elim k.kernel_heap [
  | some heap ↦ do heap' ← heap_free heap ptr; ok (record k { kernel_heap = some heap' })
  | none ↦ ok k
]
