-- ===== src/Paging/Clone/Examples.antt =====
-- A directory is cloned, and bytes are copied to a frame.
use evos.Base.{
  ℕ, ◌+◌, ◌≤◌, ◌<◌, ◌≡◌, ◌≢◌, ◌⊎◌, refl, Bool, true, Option, none, some, Result, ok, panic, fault,
  List, [], ◌∷◌, arith, get_or, set, replicate, length, ◌==◌, if◌then◌else◌,
}
use evos.Kmalloc.{Kernel, linear_kmalloc, kmalloc_physical, kmalloc_ap}
use evos.Paging.{Page, zero_page, PageDirectory, Paging}
use evos.Paging.Access.{mm_memcpy_physical}
use evos.Paging.Copy.{pointed_to, mm_memcpy_physical_lem}
use evos.Paging.Early.{EarlyOwned, EarlyRoom, early_kmalloc_ap, early_kmalloc_ap-IsAllocator}
use evos.Paging.Clone.{
  clone_page, clone_pages, clone_table, clone_entry, clone_entries, clone_directory,
}
use evos.Paging.Clone.Loop.{IsEntry}
use evos.Paging.Clone.Laws.{clone_directory_lem}

abbrev no_pages : ℕ → Bool → Bool → Unit {0} → Result (Unit {0})
no_pages addr kernel_mode writeable p = ok p

abbrev no_address : Unit {0} → ℕ → Option ℕ
no_address p address = none

abbrev early : Kernel (Unit {0})
early = record { kernel_heap = none; mem_first_unused = 0x110000 }

-- The kernel's directory at 0x100000 has a table for the second 4 MiB; the source at 0x103000
-- shares it, and has a table of its own, with no pages, for the third.
abbrev directories : ℕ → PageDirectory
directories a =
    if a == 0x100000
    then record {
      tables = 0 ∷ 0x106000 ∷ [];
      tables_physical_addr = 0 ∷ 0x106007 ∷ [];
      ismeta_tables_physical_addr = 0x101000;
    }
    else record {
      tables = 0 ∷ 0x106000 ∷ 0x107000 ∷ [];
      tables_physical_addr = 0 ∷ 0x106007 ∷ 0x107007 ∷ [];
      ismeta_tables_physical_addr = 0x104000;
    }

abbrev state : Paging (Kernel (Unit {0}))
state = record {
  allocator = early;
  frames = record { frames = record { base = 0 ∷ []; size = 1 }; num_frames = 32 };
  table_at = λ a. [];
  directory_at = directories;
  kernel_directory = 0x100000;
  current_directory = 0x103000;
  cloning_buffer_page = none;
  ram = λ f k. 0;
}

abbrev state_of : Result (ℕ × Paging (Kernel (Unit {0}))) → Paging (Kernel (Unit {0}))
state_of (ok (dir, s)) = s
state_of panic = state
state_of fault = state

unfoldable cloned : Paging (Kernel (Unit {0}))
cloned = state_of (clone_directory (early_kmalloc_ap no_pages no_address) 0x103000 state)

clone_runs :
    clone_directory (early_kmalloc_ap no_pages no_address) 0x103000 state ≡ ok (0x110000, cloned)
unfolding cloned clone_directory clone_entries clone_entry clone_table clone_pages clone_page
    early_kmalloc_ap kmalloc_ap kmalloc_physical linear_kmalloc
clone_runs = refl

clone_directory_lem_example :
    (¬ (0x110000 < 0x110000))
    × (cloned.directory_at 0x103000 ≡ directories 0x103000)
    × (cloned.directory_at 0x100000 ≡ directories 0x100000)
    × (length (cloned.directory_at 0x110000).tables ≡ 1024)
    × ((j : ℕ)
        → j < 1024
        → IsEntry EarlyOwned
            (directories 0x103000)
            (directories 0x100000)
            early
            j
            (get_or (cloned.directory_at 0x110000).tables j 0)
            (get_or (cloned.directory_at 0x110000).tables_physical_addr j 0))
clone_directory_lem_example =
    clone_directory_lem (early_kmalloc_ap no_pages no_address) EarlyOwned EarlyRoom
      (early_kmalloc_ap-IsAllocator no_pages no_address) 0x103000 0x110000 state cloned
      (refl, omega arith, omega arith) (omega arith) (omega arith) clone_runs

-- The cloning buffer is page 0 of the table at 0x106000, and page 1 of the table at 0x107000 is
-- frame 5.
abbrev mapped_tables : ℕ → List Page
mapped_tables a =
    if a == 0x106000
    then zero_page ∷ []
    else zero_page ∷ record zero_page { present = true; address = 5 } ∷ []

abbrev mapped_state : Paging (Kernel (Unit {0}))
mapped_state = record state {
  table_at = mapped_tables;
  directory_at = λ a. record {
    tables = set (replicate 1024 0x107000) 960 0x106000;
    tables_physical_addr = [];
    ismeta_tables_physical_addr = 0;
  };
  cloning_buffer_page = some (0x106000, 0);
  ram = λ frame k. frame + k;
}

mm_memcpy_physical_lem_example :
    (4096 < 0xFF0 + 4 → mm_memcpy_physical 0x7FF0 0x1010 4 mapped_state ≡ panic)
    × (0xFF0 + 4 ≤ 4096
        → (r : ℕ → ℕ → ℕ) × (mm_memcpy_physical 0x7FF0 0x1010 4 mapped_state
            ≡ ok (record (pointed_to mapped_state (0x106000, 0) 7) { ram = r }))
          × ((h : ℕ) → h ≢ 7 → r h ≡ mapped_state.ram h)
          × ((k : ℕ) → k < 4 → r 7 (0xFF0 + k) ≡ mapped_state.ram 5 (0x10 + k))
          × ((k : ℕ) → (k < 0xFF0) ⊎ (0xFF0 + 4 ≤ k) → r 7 k ≡ mapped_state.ram 7 k))
mm_memcpy_physical_lem_example =
    mm_memcpy_physical_lem mapped_state 0x7FF0 0x1010 4 0x106000 0 0x107000 1 5 refl refl
      (omega arith) refl (λ e. absurd (omega arith)) refl refl (omega arith) (omega arith)
      (omega arith)
