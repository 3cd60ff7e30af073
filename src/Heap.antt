-- ===== src/Heap.antt =====
-- src/kheap.c and kheap.h: the kernel heap, blocks between a header and a footer in memory, with
-- an index of the holes ordered by size. Memory is byte-addressed. The index has memory of its own
-- in front of the blocks (`heap_create` puts it there) and is kept apart from the bytes here.
pub mod Search
pub mod Grow
pub mod Alloc
pub mod Free
pub mod RoundTrip
mod Examples
use evos.Base.{ℕ, ◌+◌, ◌-◌, ◌*◌, ◌%◌, ◌^◌, Bool, Result, ok, ltb, u32, sub32, if◌then◌else◌, ◌==◌}
use evos.Base.Memory.{Bytes, load32, store32}
use evos.OrderedArray
use evos.OrderedArray.{OrderedArray}

abbrev pub magic : ℕ
magic = 0xDEADBEEF

-- `sizeof(header_t)` and `sizeof(footer_t)`
abbrev pub header_size : ℕ
header_size = 12

abbrev pub footer_size : ℕ
footer_size = 8

abbrev pub page_size : ℕ
page_size = 4096

-- `addr & ~PAGE_ADDR_MASK` and `addr & PAGE_ADDR_MASK`
abbrev pub page_offset : ℕ → ℕ
page_offset addr = addr % page_size

abbrev pub page_base : ℕ → ℕ
page_base addr = addr - addr % page_size

-- The fields of the `header_t` at an address.
abbrev pub header_magic : Bytes → ℕ → ℕ
header_magic m addr = load32 m addr

abbrev pub is_hole : Bytes → ℕ → ℕ
is_hole m addr = load32 m (addr + 4)

abbrev pub size_at : Bytes → ℕ → ℕ
size_at m addr = load32 m (addr + 8)

-- The fields of the `footer_t` at an address.
abbrev pub footer_magic : Bytes → ℕ → ℕ
footer_magic m addr = load32 m addr

abbrev pub footer_header : Bytes → ℕ → ℕ
footer_header m addr = load32 m (addr + 4)

-- `header->size = size; header->magic = KHEAP_MAGIC; header->is_hole = hole;`
unfoldable pub write_header : Bytes → ℕ → ℕ → ℕ → Bytes
write_header m addr size hole =
    store32 (store32 (store32 m (addr + 8) size) addr magic) (addr + 4) hole

-- `footer->magic = KHEAP_MAGIC; footer->header = header;`
unfoldable pub write_footer : Bytes → ℕ → ℕ → Bytes
write_footer m addr header = store32 (store32 m addr magic) (addr + 4) header

-- The comparator of the index, at a memory.
unfoldable pub header_t_cmp : Bytes → ℕ → ℕ → Bool
header_t_cmp m a b = ltb (size_at m a) (size_at m b)

-- `pages` is the state of the paging code, which `expand` calls to map new pages.
pub record Heap (Pages : Type 0) : Type 0 where
  pub memory : Bytes
  pub index : OrderedArray
  pub allocated_start : ℕ
  pub allocated_end : ℕ
  pub max_addr : ℕ
  pub pages_user_mode : Bool
  pub pages_writeable : Bool
  pub pages : Pages
