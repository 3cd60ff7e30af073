-- ===== src/Paging.antt =====
-- src/mm/paging.h and paging.c: pages, page tables and page directories. The tables and the
-- directories are stores by address, and a `page_t *` is the address of a table with the index of
-- the page. `ram` holds the bytes of each physical frame. The processor finds by their physical
-- addresses the tables that `tables` names, so the model reads `tables`. What the allocator does
-- to the state is the parameter `kmalloc_ap` of the sections.
pub mod Access
pub mod Clone
pub mod Init
pub mod Lookup
pub mod Laws
pub mod Alloc
pub mod Copy
pub mod Early
pub mod Identity
mod Examples
use evos.Base.{
  ℕ, ◌+◌, ◌*◌, ◌/◌, ◌%◌, ◌^◌, Bool, true, not, ◌==◌, if◌then◌else◌, Option, none, some, List,
  Result, ok, ◌>>=◌, get_or, set, replicate, bit_or,
}
use evos.Frame.{FrameAllocator, frame_alloc, frame_free, page_size}

abbrev pub pages_per_table : ℕ
pages_per_table = 1024

abbrev pub tables_per_directory : ℕ
tables_per_directory = 1024

-- `PAGE_CLONING_BUFFER`
abbrev pub page_cloning_buffer : ℕ
page_cloning_buffer = 0xF0000000

pub record Page : Type 0 where
  pub present : Bool
  pub writeable : Bool
  pub user_mode : Bool
  pub reserved_1 : ℕ
  pub accessed : ℕ
  pub is_dirty : ℕ
  pub reserved_2 : ℕ
  pub unused : ℕ
  pub address : ℕ

-- A page of zero bytes.
abbrev pub zero_page : Page
zero_page = record {
  present = Bool.false;
  writeable = Bool.false;
  user_mode = Bool.false;
  reserved_1 = 0;
  accessed = 0;
  is_dirty = 0;
  reserved_2 = 0;
  unused = 0;
  address = 0;
}

abbrev pub PageTable : Type 0
PageTable = List Page

pub record PageDirectory : Type 0 where
  pub tables : List ℕ
  pub tables_physical_addr : List ℕ
  pub ismeta_tables_physical_addr : ℕ

abbrev pub zero_table : PageTable
zero_table = replicate 1024 zero_page

abbrev pub zero_directory : PageDirectory
zero_directory = record {
  tables = replicate 1024 0;
  tables_physical_addr = replicate 1024 0;
  ismeta_tables_physical_addr = 0;
}

-- A pointer to a page: its table and its index there.
abbrev pub PagePtr : Type 0
PagePtr = ℕ × ℕ

-- The state of paging.c and of what it calls; `allocator` is the state behind kmalloc.
pub record Paging (Allocator : Type 0) : Type 0 where
  pub allocator : Allocator
  pub frames : FrameAllocator
  pub table_at : ℕ → PageTable
  pub directory_at : ℕ → PageDirectory
  pub kernel_directory : ℕ
  pub current_directory : ℕ
  pub cloning_buffer_page : Option PagePtr
  pub ram : ℕ → ℕ → ℕ

-- A store with one address changed.
abbrev pub update {ℓ} : {A : Type ℓ} → (ℕ → A) → ℕ → A → ℕ → A
update f a v x = if x == a then v else f x

unfoldable pub page_alloc : FrameAllocator → Page → Bool → Bool → Result (Page × FrameAllocator)
page_alloc frames page kernel_mode writeable =
    if not (page.address == 0) then ok (page, frames) else (do
      (frame, frames') ← frame_alloc frames
      ok (
        record page {
          present = true;
          writeable = writeable;
          user_mode = true;
          address = frame % 2 ^ 20;
        },
        frames',
      ))

unfoldable pub page_free : FrameAllocator → Page → Page × FrameAllocator
page_free frames page =
    (record page { address = 0; present = Bool.false }, frame_free frames page.address)

module _ {Allocator : Type 0} where
  abbrev pub page_at : Paging Allocator → PagePtr → Page
  page_at s (table, i) = get_or (s.table_at table) i zero_page

  abbrev pub write_page : PagePtr → Page → Paging Allocator → Paging Allocator
  write_page (table, i) page s = record s {
    table_at = update s.table_at table (set (s.table_at table) i page);
  }

  -- `page_alloc` on a page in a table.
  unfoldable pub page_alloc_at :
      PagePtr → Bool → Bool → Paging Allocator → Result (Paging Allocator)
  page_alloc_at ptr kernel_mode writeable s = do
    (page, frames') ← page_alloc s.frames (page_at s ptr) kernel_mode writeable
    ok (write_page ptr page (record s { frames = frames' }))

  -- `switch_page_directory`, but for the processor's registers.
  unfoldable pub switch_page_directory : ℕ → Paging Allocator → Paging Allocator
  switch_page_directory dir s = record s { current_directory = dir }

module _ {Allocator : Type 0}
    (kmalloc_ap : ℕ → Paging Allocator → Result (ℕ × ℕ × Paging Allocator)) where
  -- `physical | 7`: present, user, writeable.
  unfoldable pub get_page :
      ℕ → Bool → ℕ → Paging Allocator → Result (Option PagePtr × Paging Allocator)
  get_page address create_missing dir s =
      let number = address / page_size in
      let table_index = number / pages_per_table in
      let page_index = number % pages_per_table in
      let table = get_or (s.directory_at dir).tables table_index 0 in
      if not (table == 0)
      then ok (some (table, page_index), s)
      else if create_missing
      then (do
        (fresh, physical, s') ← kmalloc_ap 4096 s
        let d = s'.directory_at dir
        ok (
          some (fresh, page_index),
          record s' {
            table_at = update s'.table_at fresh zero_table;
            directory_at = update s'.directory_at dir (record d {
              tables = set d.tables table_index fresh;
              tables_physical_addr = set d.tables_physical_addr table_index (bit_or physical 7);
            });
          },
        ))
      else ok (none, s)
