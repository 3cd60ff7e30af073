-- ===== src/Paging/Clone/Table.antt =====
-- What cloning a table does to the directories and to the allocator.
use evos.Base.{ℕ, suc, ◌≡◌, ◌≢◌, sym, ap, ◌∙◌, Result, ok, first_part, arith}
use evos.Paging.{Paging, update, zero_table}
use evos.Paging.Laws.{IsAllocator, given}
use evos.Paging.Clone.{clone_pages, clone_table}
use evos.Paging.Clone.Frame.{clone_pages-IsAside}

module _ {Allocator : Type 0}
    (kmalloc_ap : ℕ → Paging Allocator → Result (ℕ × ℕ × Paging Allocator))
    (owned : Allocator → ℕ → Type 0) (room : Allocator → ℕ → Type 0)
    (laws : IsAllocator kmalloc_ap owned room) where
  -- After a table has been cloned.
  pub record IsTableCloned (s : Paging Allocator) (dest : ℕ) (s' : Paging Allocator) (n : ℕ)
      : Type 0 where
    pub nonzero : dest ≢ 0
    pub unused : ¬ owned s.allocator dest
    pub directories : s'.directory_at ≡ s.directory_at
    pub kernel : s'.kernel_directory ≡ s.kernel_directory
    pub kept : (a : ℕ) → owned s.allocator a → owned s'.allocator a
    pub more : room s'.allocator n

  pub clone_table-IsTableCloned :
      (i src dest physical n : ℕ) (s s' : Paging Allocator)
      → room s.allocator (suc n)
      → clone_table kmalloc_ap i src s ≡ ok (dest, physical, s')
      → IsTableCloned s dest s' n
  unfolding clone_table
  clone_table-IsTableCloned i src dest physical n s s' left e =
      let ((fresh, p, t), allocated, e1) = first_part (kmalloc_ap 4096 s) _ e in
      let blank : Paging Allocator = record t { table_at = update t.table_at fresh zero_table } in
      let (u, pages, e2) = first_part (clone_pages 1024 i src fresh 0 blank) _ e1 in
      let aside = clone_pages-IsAside 1024 i src fresh 0 blank u pages in
      let g =
        given kmalloc_ap owned room laws 4096 n fresh p s t left (omega arith) (omega arith)
          allocated in
      let same : fresh ≡ dest = cc in
      let last : u ≡ s' = cc in
      rw (sym same, sym last)
        (record {
          nonzero = g.nonzero;
          unused = g.unused;
          directories = aside.directories ∙ ap (λ (v : Paging Allocator). v.directory_at) g.apart;
          kernel = aside.kernel ∙ ap (λ (v : Paging Allocator). v.kernel_directory) g.apart;
          kept = λ a old. rw aside.allocated (g.kept a old);
          more = rw aside.allocated g.more;
        })
