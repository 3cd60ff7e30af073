-- ===== src/Paging/Clone/Laws.antt =====
-- Which tables a cloned directory shares with its source.
use evos.Base.{
  ℕ, ◌+◌, ◌<◌, ◌≡◌, ◌≢◌, refl, sym, ap, ◌∙◌, Result, ok, first_part, arith, u32, length,
  length-replicate, get_or-replicate, get_or,
}
use evos.Paging.{PageDirectory, Paging, update, zero_directory}
use evos.Paging.Lookup.{update_lem}
use evos.Paging.Laws.{IsAllocator, given}
use evos.Paging.Clone.{clone_entries, clone_directory}
use evos.Paging.Clone.Loop.{IsEntry, clone_entries-IsCloning}

module _ {Allocator : Type 0}
    (kmalloc_ap : ℕ → Paging Allocator → Result (ℕ × ℕ × Paging Allocator))
    (owned : Allocator → ℕ → Type 0) (room : Allocator → ℕ → Type 0)
    (laws : IsAllocator kmalloc_ap owned room) where
  -- A directory that clone_directory returns, with room for 1025 blocks, is a new one. Of its entries, those that the source
  -- does not have are missing, those where the source has the kernel's table share that table and
  -- its physical address, and each other one has a table that was not in use before. The source and
  -- the kernel's directory keep their entries.
  pub clone_directory_lem :
      (src dir : ℕ) (s s' : Paging Allocator)
      → room s.allocator 1025
      → owned s.allocator src
      → owned s.allocator s.kernel_directory
      → clone_directory kmalloc_ap src s ≡ ok (dir, s')
      → (¬ owned s.allocator dir)
        × (s'.directory_at src ≡ s.directory_at src)
        × (s'.directory_at s.kernel_directory ≡ s.directory_at s.kernel_directory)
        × (length (s'.directory_at dir).tables ≡ 1024)
        × ((j : ℕ)
            → j < 1024
            → IsEntry owned
                (s.directory_at src)
                (s.directory_at s.kernel_directory)
                s.allocator
                j
                (get_or (s'.directory_at dir).tables j 0)
                (get_or (s'.directory_at dir).tables_physical_addr j 0))
  unfolding clone_directory
  clone_directory_lem src dir s s' left held kernel_held e =
      let ((fresh, physical, t), allocated, e1) = first_part (kmalloc_ap 8196 s) _ e in
      let g =
        given kmalloc_ap owned room laws 8196 1024 fresh physical s t left (omega arith)
          (omega arith) allocated in
      let unused = g.unused in
      let apart = g.apart in
      let blank : PageDirectory = record zero_directory {
        ismeta_tables_physical_addr = u32 (physical + 4096);
      } in
      let begun : Paging Allocator = record t {
        directory_at = update t.directory_at fresh blank;
      } in
      let (u, entries, e2) = first_part (clone_entries kmalloc_ap 1024 src fresh 0 begun) _ e1 in
      let same : fresh ≡ dir = cc in
      let last : u ≡ s' = cc in
      let not_source : fresh ≢ src = λ f. unused (rw f held) in
      let not_kernel : fresh ≢ s.kernel_directory = λ f. unused (rw f kernel_held) in
      let kept = λ (o : ℕ) (ne : o ≢ fresh).
        (update_lem t.directory_at fresh blank o).1 ne
        ∙ ap (λ (v : Paging Allocator). v.directory_at o) apart in
      let stored : begun.directory_at fresh ≡ blank =
        (update_lem t.directory_at fresh blank fresh).0 refl in
      let done =
        clone_entries-IsCloning kmalloc_ap owned room laws (s.directory_at src)
          (s.directory_at s.kernel_directory) s.allocator src fresh s.kernel_directory not_source
          not_kernel 1024 0 begun u refl entries
          (record {
            same_source = kept src (λ f. not_source (sym f));
            kernel_is = ap (λ (v : Paging Allocator). v.kernel_directory) apart;
            same_kernel = kept s.kernel_directory (λ f. not_kernel (sym f));
            size = rw stored (length-replicate {A = ℕ} 1024 0);
            size_physical = rw stored (length-replicate {A = ℕ} 1024 0);
            kept = g.kept;
            more = g.more;
            done = λ j h. absurd (omega arith);
            rest = λ j h. rw stored (get_or-replicate {A = ℕ} 1024 j 0);
          }) in
      rw (sym same, sym last) (unused, done.same_source, done.same_kernel, done.size, done.done)
