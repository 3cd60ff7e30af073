-- ===== src/Paging/Init.antt =====
-- `init_paging`. `first_unused` reads `mem_first_unused`, which the calls of kmalloc in the loops
-- move; `create_heap` is the call of `heap_create`, and `page_fault_handler` the address of the
-- handler. The lines that are printed on the way are not modelled.
use evos.Base.{
  ℕ, zero, suc, ◌+◌, ◌*◌, ◌/◌, ◌^◌, Bool, true, false, ◌==◌, some, Result, ok, fault, ◌>>=◌, ◌>>◌,
  checked, assert, ltb, u32,
}
use evos.Idt.{Handlers, register_handler}
use evos.Paging.{
  Paging, page_at, page_alloc_at, update, zero_directory, get_page, switch_page_directory,
  page_cloning_buffer,
}
use evos.Paging.Clone.{clone_directory}

abbrev pub heap_start : ℕ
heap_start = 0x0F000000

abbrev pub page_fault_isr : ℕ
page_fault_isr = 14

abbrev pub heap_pages : ℕ
heap_pages = 16

module _ {Allocator : Type 0}
    (kmalloc_ap : ℕ → Paging Allocator → Result (ℕ × ℕ × Paging Allocator)) where
  -- The first loop: the tables of `rounds` pages from `i` on.
  unfoldable pub prepare_pages : ℕ → ℕ → ℕ → Paging Allocator → Result (Paging Allocator)
  prepare_pages zero i dir s = ok s
  prepare_pages (suc rounds) i dir s = do
    (page, s') ← get_page kmalloc_ap i true dir s
    prepare_pages rounds (i + 4096) dir s'

  -- The body of the second loop.
  unfoldable pub identity_map_page : ℕ → ℕ → Paging Allocator → Result (Paging Allocator)
  identity_map_page i dir s = do
    (found, s') ← get_page kmalloc_ap i true dir s
    ptr ← checked found
    mapped ← page_alloc_at ptr false true s'
    assert ((page_at mapped ptr).address == i / 4096)
    ok mapped

  -- The second loop, on fuel: its bound moves while it runs.
  unfoldable pub identity_map :
      (Allocator → ℕ) → ℕ → ℕ → ℕ → Paging Allocator → Result (Paging Allocator)
  identity_map first_unused zero i dir s = fault
  identity_map first_unused (suc fuel) i dir s =
      elim (ltb i (u32 (first_unused s.allocator + 4 * 4096))) [
        | Bool.true ↦ do
          s' ← identity_map_page i dir s
          identity_map first_unused fuel (u32 (i + 4096)) dir s'
        | Bool.false ↦ ok s
      ]

  -- The third loop; a page that `get_page` does not find is a null pointer.
  unfoldable pub map_heap : ℕ → ℕ → ℕ → Paging Allocator → Result (Paging Allocator)
  map_heap zero i dir s = ok s
  map_heap (suc rounds) i dir s = do
    (found, s') ← get_page kmalloc_ap i false dir s
    ptr ← checked found
    mapped ← page_alloc_at ptr false true s'
    map_heap rounds (i + 4096) dir mapped

  unfoldable pub init_paging :
      (Allocator → ℕ)
      → (Paging Allocator → Result (Paging Allocator))
      → ℕ
      → Paging Allocator
      → Handlers
      → Result (Paging Allocator × Handlers)
  init_paging first_unused create_heap page_fault_handler s handlers = do
    (dir, physical, s1) ← kmalloc_ap 8196 s
    let blank = record zero_directory { ismeta_tables_physical_addr = u32 (physical + 4096) }
    let s2 = record s1 { kernel_directory = dir; directory_at = update s1.directory_at dir blank }
    s3 ← prepare_pages heap_pages heap_start dir s2
    s4 ← identity_map first_unused (2 ^ 20) 0 dir s3
    s5 ← map_heap heap_pages heap_start dir s4
    (buffer, s6) ← get_page kmalloc_ap page_cloning_buffer true dir s5
    ptr ← checked buffer
    s7 ← page_alloc_at ptr true true (record s6 { cloning_buffer_page = some ptr })
    let handlers' = register_handler handlers page_fault_isr (some page_fault_handler)
    s8 ← create_heap (switch_page_directory dir s7)
    (clone, s9) ← clone_directory kmalloc_ap dir s8
    ok (switch_page_directory clone s9, handlers')
