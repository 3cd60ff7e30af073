-- ===== src/Paging/Clone.antt =====
-- `clone_table` and `clone_directory`.
pub mod Frame
pub mod Table
pub mod Loop
pub mod Laws
mod Examples
use evos.Base.{
  ℕ, zero, suc, ◌+◌, ◌*◌, not, ◌==◌, if◌then◌else◌, Result, ok, ◌>>=◌, get_or, set, bit_or, u32,
}
use evos.Paging.{Paging, page_at, page_alloc_at, update, zero_table, zero_directory}
use evos.Paging.Access.{clone_page_to_physical}

module _ {Allocator : Type 0} where
  -- The body of the loop of `clone_table`.
  unfoldable pub clone_page : ℕ → ℕ → ℕ → ℕ → Paging Allocator → Result (Paging Allocator)
  clone_page table_index src dest i s =
      let sp = page_at s (src, i) in
      if sp.address == 0 then ok s else (do
        allocated ← page_alloc_at (dest, i) (not sp.user_mode) sp.writeable s
        clone_page_to_physical (u32 ((table_index * 1024 + i) * 4096))
            (u32 ((page_at allocated (dest, i)).address * 4096)) allocated)

  -- The loop, with a number of rounds left.
  unfoldable pub clone_pages : ℕ → ℕ → ℕ → ℕ → ℕ → Paging Allocator → Result (Paging Allocator)
  clone_pages zero table_index src dest i s = ok s
  clone_pages (suc rounds) table_index src dest i s = do
    s' ← clone_page table_index src dest i s
    clone_pages rounds table_index src dest (i + 1) s'

  abbrev pub set_entry : ℕ → ℕ → ℕ → ℕ → Paging Allocator → Paging Allocator
  set_entry dir i table physical s =
      let d = s.directory_at dir in
      record s {
        directory_at = update s.directory_at dir (record d {
          tables = set d.tables i table;
          tables_physical_addr = set d.tables_physical_addr i physical;
        });
      }

module _ {Allocator : Type 0}
    (kmalloc_ap : ℕ → Paging Allocator → Result (ℕ × ℕ × Paging Allocator)) where
  unfoldable pub clone_table : ℕ → ℕ → Paging Allocator → Result (ℕ × ℕ × Paging Allocator)
  clone_table table_index src s = do
    (dest, physical, s') ← kmalloc_ap 4096 s
    cloned ←
        clone_pages 1024 table_index src dest 0
          (record s' { table_at = update s'.table_at dest zero_table })
    ok (dest, physical, cloned)

  -- The body of the loop of `clone_directory`, without the line "Clone!" that is printed for a
  -- table of its own.
  unfoldable pub clone_entry : ℕ → ℕ → ℕ → Paging Allocator → Result (Paging Allocator)
  clone_entry src dir i s =
      let table = get_or (s.directory_at src).tables i 0 in
      if table == 0
      then ok s
      else if get_or (s.directory_at s.kernel_directory).tables i 0 == table
      then ok (set_entry dir i table (get_or (s.directory_at src).tables_physical_addr i 0) s)
      else (do
        (dest, physical, s') ← clone_table i table s
        ok (set_entry dir i dest (bit_or physical 7) s'))

  unfoldable pub clone_entries : ℕ → ℕ → ℕ → ℕ → Paging Allocator → Result (Paging Allocator)
  clone_entries zero src dir i s = ok s
  clone_entries (suc rounds) src dir i s = do
    s' ← clone_entry src dir i s
    clone_entries rounds src dir (i + 1) s'

  -- `sizeof(page_directory_t)` is 8196, and `tables_physical_addr` stands 4096 bytes into it.
  unfoldable pub clone_directory : ℕ → Paging Allocator → Result (ℕ × Paging Allocator)
  clone_directory src s = do
    (dir, physical, s') ← kmalloc_ap 8196 s
    let blank = record zero_directory { ismeta_tables_physical_addr = u32 (physical + 4096) }
    cloned ←
        clone_entries 1024 src dir 0 (record s' { directory_at = update s'.directory_at dir blank })
    ok (dir, cloned)
