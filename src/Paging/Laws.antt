-- ===== src/Paging/Laws.antt =====
-- What get_page does to the pages that a directory finds.
use evos.Base.{
  ℕ, suc, ◌≤◌, ◌/◌, ◌%◌, ◌^◌, ◌<◌, ◌≡◌, ◌≢◌, refl, sym, ap, ◌∙◌, Bool, true, none, some, Result, ok,
  arith, length, get_or, set, length-set, ℕ_discrete, bit_or,
}
use evos.Paging.{zero_table, PagePtr, PageTable, PageDirectory, Paging, update, get_page}
use evos.Paging.Lookup.{
  update_lem, pages_in, pages_in-some, pages_in-none, pages_in_here, pages_in_zero, pages_in_same,
  pages_in_table, get_or-set_if,
}

module _ {Allocator : Type 0}
    (kmalloc_ap : ℕ → Paging Allocator → Result (ℕ × ℕ × Paging Allocator))
    (owned : Allocator → ℕ → Type 0) (room : Allocator → ℕ → Type 0) where
  -- A block that has been handed out: it is not null and was not handed out before, what has been
  -- handed out stays so, there is room for `n` blocks more, and paging.c's own state is left alone.
  pub record IsGiven (s : Paging Allocator) (a : ℕ) (s' : Paging Allocator) (n : ℕ) : Type 0 where
    pub nonzero : a ≢ 0
    pub unused : ¬ owned s.allocator a
    pub mine : owned s'.allocator a
    pub kept : (b : ℕ) → owned s.allocator b → owned s'.allocator b
    pub apart : s' ≡ record s { allocator = s'.allocator }
    pub more : room s'.allocator n

  -- What the paging code needs of the allocator: with room for a block it hands one out.
  pub record IsAllocator : Type 0 where
    pub gives :
        (size n : ℕ) (s : Paging Allocator)
        → room s.allocator (suc n)
        → 0 < size
        → size ≤ 8196
        → (a : ℕ) × (physical : ℕ) × (s' : Paging Allocator) × (kmalloc_ap size s
            ≡ ok (a, physical, s'))
          × IsGiven s a s' n
    pub fewer : (k : Allocator) (n : ℕ) → room k (suc n) → room k n

  pub given :
      (laws : IsAllocator) (size n a physical : ℕ) (s s' : Paging Allocator)
      → room s.allocator (suc n)
      → 0 < size
      → size ≤ 8196
      → kmalloc_ap size s ≡ ok (a, physical, s')
      → IsGiven s a s' n
  given laws size n a physical s s' left some_size small e =
      let (b, p, t, e', g) = laws.gives size n s left some_size small in
      let same : b ≡ a = cc in let last : t ≡ s' = cc in rw (sym same, sym last) g

  -- A directory has 1024 entries, and its tables have been handed out and are all different.
  pub record IsDirectory (k : Allocator) (d : PageDirectory) : Type 0 where
    pub size : length d.tables ≡ 1024
    pub handed_out : (i : ℕ) → get_or d.tables i 0 ≢ 0 → owned k (get_or d.tables i 0)
    pub different :
        (i j : ℕ) → get_or d.tables i 0 ≢ 0 → get_or d.tables i 0 ≡ get_or d.tables j 0 → i ≡ j

  -- In such a directory the page of an address is that of no address of another page.
  pub pages_in_injective :
      (k : Allocator) (d : PageDirectory) (ptr : PagePtr) (a b : ℕ)
      → IsDirectory k d
      → pages_in d a ≡ some ptr
      → pages_in d b ≡ some ptr
      → a / 4096 ≡ b / 4096
  pages_in_injective allocator d (t, k) a b v p q =
      let (at, nonzero, place) = pages_in-some d a t k p in
      let (at', nonzero', place') = pages_in-some d b t k q in
      let same =
        v.different (a / 4096 / 1024) (b / 4096 / 1024) (λ z. nonzero (sym at ∙ z))
          (at ∙ sym at') in
      omega (arith, same, place, place')

  -- The new entry of a directory.
  abbrev pub with_table : PageDirectory → ℕ → ℕ → ℕ → PageDirectory
  with_table d i fresh physical = record d {
    tables = set d.tables i fresh;
    tables_physical_addr = set d.tables_physical_addr i (bit_or physical 7);
  }

  with_table-IsDirectory :
      (s s' : Paging Allocator) (d : PageDirectory) (i fresh physical n : ℕ)
      → IsGiven s fresh s' n
      → IsDirectory s.allocator d
      → i < 1024
      → IsDirectory s'.allocator (with_table d i fresh physical)
  with_table-IsDirectory s s' d i fresh physical n g v small =
      let nonzero = g.nonzero in
      let unused = g.unused in
      let mine = g.mine in
      let entry = λ (j : ℕ). get_or-set_if d.tables i j fresh (omega (arith, v.size)) in
      record {
        size = length-set d.tables i fresh ∙ v.size;
        handed_out = λ j ne. elim (ℕ_discrete j i) [
          | yes j_i ↦ rw ((entry j).0 j_i) mine
          | no other ↦
              rw ((entry j).1 other)
                (g.kept (get_or d.tables j 0) (v.handed_out j (λ z. ne ((entry j).1 other ∙ z))))
        ];
        different = λ j k ne same. elim (ℕ_discrete j i) [
          | yes j_i ↦ elim (ℕ_discrete k i) [
            | yes k_i ↦ j_i ∙ sym k_i
            | no other ↦
                let old : get_or d.tables k 0 ≡ fresh =
                  sym ((entry k).1 other) ∙ sym same ∙ (entry j).0 j_i in
                absurd (unused (rw (sym old) (v.handed_out k (λ z. nonzero (sym old ∙ z)))))
          ]
          | no other ↦ elim (ℕ_discrete k i) [
            | yes k_i ↦
                let old : get_or d.tables j 0 ≡ fresh =
                  sym ((entry j).1 other) ∙ same ∙ (entry k).0 k_i in
                absurd (unused (rw (sym old) (v.handed_out j (λ z. nonzero (sym old ∙ z)))))
            | no other_k ↦
                v.different j k (λ z. ne ((entry j).1 other ∙ z))
                  (sym ((entry j).1 other) ∙ same ∙ (entry k).1 other_k)
          ]
        ];
      }

  -- What is the case after the page of an address has been found or made.
  pub record IsFound (s : Paging Allocator) (dir address : ℕ) (ptr : PagePtr)
      (s' : Paging Allocator) : Type 0 where
    pub here : pages_in (s'.directory_at dir) address ≡ some ptr
    pub directory : IsDirectory s'.allocator (s'.directory_at dir)
    pub others :
        (b : ℕ)
        → pages_in (s.directory_at dir) b ≢ none
        → pages_in (s'.directory_at dir) b ≡ pages_in (s.directory_at dir) b
    pub blank : pages_in (s.directory_at dir) address ≡ none → s'.table_at ptr.0 ≡ zero_table
    pub same_tables : (t : ℕ) → owned s.allocator t → s'.table_at t ≡ s.table_at t
    pub same_directories : (o : ℕ) → o ≢ dir → s'.directory_at o ≡ s.directory_at o
    pub same_frames : s'.frames ≡ s.frames

  get_page_old :
      (s : Paging Allocator) (dir address : ℕ) (create : Bool)
      → get_or (s.directory_at dir).tables (address / 4096 / 1024) 0 ≢ 0
      → get_page kmalloc_ap address create dir s
        ≡ ok (
          some
              (get_or (s.directory_at dir).tables (address / 4096 / 1024) 0, address / 4096 % 1024),
          s,
        )
  unfolding get_page
  get_page_old s dir address create ne = ground arith

  abbrev pub extended : Paging Allocator → ℕ → ℕ → ℕ → ℕ → Paging Allocator
  extended t dir i fresh physical = record t {
    table_at = update t.table_at fresh zero_table;
    directory_at = update t.directory_at dir (with_table (t.directory_at dir) i fresh physical);
  }

  pub get_page_new :
      (s t : Paging Allocator) (dir address fresh physical : ℕ)
      → get_or (s.directory_at dir).tables (address / 4096 / 1024) 0 ≡ 0
      → kmalloc_ap 4096 s ≡ ok (fresh, physical, t)
      → get_page kmalloc_ap address true dir s
        ≡ ok (
          some (fresh, address / 4096 % 1024),
          extended t dir (address / 4096 / 1024) fresh physical,
        )
  unfolding get_page
  get_page_new s t dir address fresh physical z e = rw (z, e) refl

  extended-IsFound :
      (s t : Paging Allocator) (dir address fresh physical n : ℕ)
      → IsGiven s fresh t n
      → IsDirectory s.allocator (s.directory_at dir)
      → address < 2 ^ 32
      → get_or (s.directory_at dir).tables (address / 4096 / 1024) 0 ≡ 0
      → IsFound s dir address
          (fresh, address / 4096 % 1024)
          (extended t dir (address / 4096 / 1024) fresh physical)
  extended-IsFound s t dir address fresh physical n g v low z =
      let apart = g.apart in
      let nonzero = g.nonzero in
      let unused = g.unused in
      let i = address / 4096 / 1024 in
      let d = s.directory_at dir in
      let directories : t.directory_at ≡ s.directory_at = ap (λ u. u.directory_at) apart in
      let tables : t.table_at ≡ s.table_at = ap (λ u. u.table_at) apart in
      let after : (extended t dir i fresh physical).directory_at dir
          ≡ with_table d i fresh physical =
        (update_lem t.directory_at dir (with_table (t.directory_at dir) i fresh physical) dir).0
          refl
        ∙ ap (λ (f : ℕ → PageDirectory). with_table (f dir) i fresh physical) directories in
      let entry = λ (j : ℕ). get_or-set_if d.tables i j fresh (omega (arith, v.size)) in
      record {
        here =
            ap (λ u. pages_in u address) after
            ∙ pages_in_table (with_table d i fresh physical) address fresh ((entry i).0 refl)
                nonzero;
        directory = rw after (with_table-IsDirectory s t d i fresh physical n g v (omega arith));
        others = λ b ne.
            ap (λ u. pages_in u b) after
            ∙ pages_in_same d (with_table d i fresh physical) b (
                (entry (b / 4096 / 1024)).1
                  (λ same. ne (pages_in-none d b (ap (λ j. get_or d.tables j 0) same ∙ z))));
        blank = λ no_page. (update_lem t.table_at fresh zero_table fresh).0 refl;
        same_tables = λ a old.
            (update_lem t.table_at fresh zero_table a).1 (λ same. unused (rw same at old))
            ∙ ap (λ (f : ℕ → PageTable). f a) tables;
        same_directories = λ o other.
            (update_lem t.directory_at dir (with_table (t.directory_at dir) i fresh physical) o).1
              other
            ∙ ap (λ (f : ℕ → PageDirectory). f o) directories;
        same_frames = ap (λ u. u.frames) apart;
      }

  -- With room for a block, get_page with create_missing returns a page: the one that
  -- the directory finds for the address from then on, in a table of its own that is blank if it is
  -- new. Addresses that had a page keep it, other tables, other directories and the frames do not
  -- change, and the directory's tables are still all different.
  pub get_page-IsFound :
      (s : Paging Allocator) (dir address : ℕ)
      → IsAllocator
      → room s.allocator 1
      → IsDirectory s.allocator (s.directory_at dir)
      → address < 2 ^ 32
      → (ptr : PagePtr) × (s' : Paging Allocator) × (get_page kmalloc_ap address true dir s
          ≡ ok (some ptr, s'))
        × IsFound s dir address ptr s'
  get_page-IsFound s dir address laws left v low =
      let (fresh, physical, t, e, g) = laws.gives 4096 0 s left (omega arith) (omega arith) in
      elim (ℕ_discrete (get_or (s.directory_at dir).tables (address / 4096 / 1024) 0) 0) [
        | yes z ↦ (
          (fresh, address / 4096 % 1024),
          extended t dir (address / 4096 / 1024) fresh physical,
          get_page_new s t dir address fresh physical z e,
          extended-IsFound s t dir address fresh physical 0 g v low z,
        )
        | no ne ↦ (
          (get_or (s.directory_at dir).tables (address / 4096 / 1024) 0, address / 4096 % 1024),
          s,
          get_page_old s dir address true ne,
          record {
            here = pages_in_here (s.directory_at dir) address ne;
            directory = v;
            others = λ b h. refl;
            blank = λ h. absurd (ne (pages_in_zero (s.directory_at dir) address h));
            same_tables = λ a h. refl;
            same_directories = λ o h. refl;
            same_frames = refl;
          },
        )
      ]
