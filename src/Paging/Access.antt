-- ===== src/Paging/Access.antt =====
-- Memory through the page tables, and the copies that go through the cloning buffer. An address
-- without a present page is a page fault, whose handler panics.
use evos.Base.{
  ℕ, zero, suc, ◌+◌, ◌/◌, ◌%◌, ◌^◌, true, not, ◌&&◌, ◌==◌, if◌then◌else◌, Option, none, some,
  Result, ok, panic, ◌>>=◌, checked, ltb, get_or, u32,
}
use evos.Paging.{Paging, page_at, write_page, update, page_cloning_buffer}

-- The page fault of an address without a frame.
abbrev pub mapped : Option ℕ → Result ℕ
mapped none = panic
mapped (some frame) = ok frame

module _ {Allocator : Type 0} where
  -- The frame of an address in a directory.
  unfoldable pub translate : Paging Allocator → ℕ → ℕ → Option ℕ
  translate s dir address =
      let number = address / 4096 in
      let table = get_or (s.directory_at dir).tables (number / 1024) 0 in
      let page = page_at s (table, number % 1024) in
      if not (table == 0) && page.present then some page.address else none

  unfoldable pub load_virtual : Paging Allocator → ℕ → Result ℕ
  load_virtual s address = do
    frame ← mapped (translate s s.current_directory address)
    ok (s.ram frame (address % 4096))

  unfoldable pub store_virtual : Paging Allocator → ℕ → ℕ → Result (Paging Allocator)
  store_virtual s address byte = do
    frame ← mapped (translate s s.current_directory address)
    ok (record s { ram = update s.ram frame (update (s.ram frame) (address % 4096) byte) })

  -- `memcpy` on virtual addresses.
  unfoldable pub memcpy_virtual : ℕ → ℕ → ℕ → Paging Allocator → Result (Paging Allocator)
  memcpy_virtual dest src zero s = ok s
  memcpy_virtual dest src (suc num) s = do
    byte ← load_virtual s src
    s' ← store_virtual s dest byte
    memcpy_virtual (dest + 1) (src + 1) num s'

  -- The first two lines of the functions below: the buffer's page now stands for another frame.
  unfoldable pub point_buffer : ℕ → Paging Allocator → Result (Paging Allocator)
  point_buffer dest_physical s = do
    ptr ← checked s.cloning_buffer_page
    ok (
        write_page ptr
          (record (page_at s ptr) { address = dest_physical / 4096 % 2 ^ 20; present = true }) s)

  unfoldable pub clone_page_to_physical : ℕ → ℕ → Paging Allocator → Result (Paging Allocator)
  clone_page_to_physical src_virtual dest_physical s = do
    pointed ← point_buffer dest_physical s
    memcpy_virtual page_cloning_buffer src_virtual 4096 pointed

  unfoldable pub mm_memcpy_physical : ℕ → ℕ → ℕ → Paging Allocator → Result (Paging Allocator)
  mm_memcpy_physical dest_physical src size s =
      if ltb 0x1000 (u32 (dest_physical % 4096 + size)) then panic else (do
        pointed ← point_buffer dest_physical s
        memcpy_virtual (page_cloning_buffer + dest_physical % 4096) src size pointed)
