-- ===== src/Task/Kept.antt =====
-- The pages of a directory, and the cloning buffer, while pages are added.
use evos.Base.{
  ℕ, ◌/◌, ◌%◌, ◌^◌, ◌<◌, ◌≡◌, ◌≢◌, refl, sym, ap, ◌∙◌, Bool, true, false, Option, none, some,
  Result, ok, ◌>>=◌, first_part, ok_injective, checked, arith, length, get_or, set, bit_or,
  length-replicate, length-set, ℕ_discrete,
}
use evos.Paging.{
  Page, PageDirectory, zero_page, zero_table, page_alloc, page_alloc_at, Paging, PagePtr, page_at,
  write_page, update, get_page,
}
use evos.Paging.Lookup.{
  update_lem, pages_in, pages_in_same, pages_in-none, pages_in_here, pages_in_table, get_or-set_if,
}
use evos.Task.{provide_page}

pub no_page : {p : PagePtr} → none ≡ some p → ⊥
no_page e = cc

module _ {Allocator : Type 0} where
  -- The pages that a directory had, it still has, and so does the cloning buffer.
  pub record IsKept (s s' : Paging Allocator) (dir : ℕ) : Type 0 where
    pub same_buffer : s'.cloning_buffer_page ≡ s.cloning_buffer_page
    pub pages :
        (b : ℕ)
        → pages_in (s.directory_at dir) b ≢ none
        → pages_in (s'.directory_at dir) b ≡ pages_in (s.directory_at dir) b
    pub size : length (s'.directory_at dir).tables ≡ length (s.directory_at dir).tables
    pub tables : (t : ℕ) → 0 < length (s.table_at t) → 0 < length (s'.table_at t)

  pub IsKept-trans :
      (s s1 s2 : Paging Allocator) (dir : ℕ) → IsKept s s1 dir → IsKept s1 s2 dir → IsKept s s2 dir
  IsKept-trans s s1 s2 dir k l = record {
    same_buffer = l.same_buffer ∙ k.same_buffer;
    pages = λ b ne. l.pages b (λ z. ne (sym (k.pages b ne) ∙ z)) ∙ k.pages b ne;
    size = l.size ∙ k.size;
    tables = λ t h. l.tables t (k.tables t h);
  }

  IsKept-refl : (s : Paging Allocator) (dir : ℕ) → IsKept s s dir
  IsKept-refl s dir = record {
    same_buffer = refl;
    pages = λ b ne. refl;
    size = refl;
    tables = λ t h. h;
  }

  pub write_page-length :
      (s : Paging Allocator) (u i t : ℕ) (page : Page)
      → length ((write_page (u, i) page s).table_at t) ≡ length (s.table_at t)
  write_page-length s u i t page = elim (ℕ_discrete t u) [
    | yes e ↦
        ap length ((update_lem s.table_at u (set (s.table_at u) i page) t).0 e)
        ∙ length-set (s.table_at u) i page
        ∙ ap (λ v. length (s.table_at v)) (sym e)
    | no ne ↦ ap length ((update_lem s.table_at u (set (s.table_at u) i page) t).1 ne)
  ]

  pub page_alloc_at-IsKept :
      (s s' : Paging Allocator) (ptr : PagePtr) (a b : Bool) (dir : ℕ)
      → page_alloc_at ptr a b s ≡ ok s'
      → IsKept s s' dir
  unfolding page_alloc_at
  page_alloc_at-IsKept s s' (u, i) a b dir e =
      let ((page, frames), allocated, e1) =
        first_part (page_alloc s.frames (page_at s (u, i)) a b) _ e in
      let last : write_page (u, i) page (record s { frames = frames }) ≡ s' = ok_injective e1 in
      rw (sym last) (record {
        same_buffer = refl;
        pages = λ b ne. refl;
        size = refl;
        tables = λ t h. omega (arith, write_page-length s u i t page);
      })

module _ {Allocator : Type 0}
    (kmalloc_ap : ℕ → Paging Allocator → Result (ℕ × ℕ × Paging Allocator))
    (quiet : (size a physical : ℕ) (s s' : Paging Allocator)
      → kmalloc_ap size s ≡ ok (a, physical, s')
      → (a ≢ 0) × (s' ≡ record s { allocator = s'.allocator })) where
  -- The state in which a directory has a new table.
  abbrev extended : Paging Allocator → ℕ → ℕ → ℕ → ℕ → Paging Allocator
  extended t dir i fresh physical =
      let d = t.directory_at dir in
      record t {
        table_at = update t.table_at fresh zero_table;
        directory_at = update t.directory_at dir (record d {
          tables = set d.tables i fresh;
          tables_physical_addr = set d.tables_physical_addr i (bit_or physical 7);
        });
      }

  extended-IsKept :
      (s : Paging Allocator) (dir address fresh physical : ℕ)
      → length (s.directory_at dir).tables ≡ 1024
      → address < 2 ^ 32
      → get_or (s.directory_at dir).tables (address / 4096 / 1024) 0 ≡ 0
      → fresh ≢ 0
      → IsKept s (extended s dir (address / 4096 / 1024) fresh physical) dir
        × (pages_in
              ((extended s dir (address / 4096 / 1024) fresh physical).directory_at dir)
              address
            ≡ some (fresh, address / 4096 % 1024))
  extended-IsKept s dir address fresh physical size low z nonzero =
      let i = address / 4096 / 1024 in
      let d = s.directory_at dir in
      let d' : PageDirectory = record d {
        tables = set d.tables i fresh;
        tables_physical_addr = set d.tables_physical_addr i (bit_or physical 7);
      } in
      let stored = (update_lem s.directory_at dir d' dir).0 refl in
      let entry = λ (j : ℕ). get_or-set_if d.tables i j fresh (omega arith) in
      (
        record {
          same_buffer = refl;
          pages = λ b ne.
              ap (λ v. pages_in v b) stored
              ∙ pages_in_same d d' b (
                  (entry (b / 4096 / 1024)).1
                    (λ same. ne (pages_in-none d b (ap (λ j. get_or d.tables j 0) same ∙ z))));
          size = ap (λ (v : PageDirectory). length v.tables) stored ∙ length-set d.tables i fresh;
          tables = λ t h. elim (ℕ_discrete t fresh) [
            | yes e ↦
                let zeros = ap length ((update_lem s.table_at fresh zero_table t).0 e) in
                omega (arith, zeros, length-replicate 1024 zero_page)
            | no other ↦
                let same = ap length ((update_lem s.table_at fresh zero_table t).1 other) in
                omega (arith, same)
          ];
        },
        ap (λ v. pages_in v address) stored
            ∙ pages_in_table d' address fresh ((entry i).0 refl) nonzero,
      )

  checked-some : (found : Option PagePtr) (p : PagePtr) → checked found ≡ ok p → found ≡ some p
  checked-some none p e = cc
  checked-some (some q) p e = ap some (ok_injective e)

  get_page-IsKept :
      (s s' : Paging Allocator) (dir address : ℕ) (found : Option PagePtr)
      → length (s.directory_at dir).tables ≡ 1024
      → address < 2 ^ 32
      → get_page kmalloc_ap address true dir s ≡ ok (found, s')
      → IsKept s s' dir × (pages_in (s'.directory_at dir) address ≡ found)
  unfolding get_page
  get_page-IsKept s s' dir address found size low e =
      elim (ℕ_discrete (get_or (s.directory_at dir).tables (address / 4096 / 1024) 0) 0) [
        | yes z ↦
            let run : get_page kmalloc_ap address true dir s ≡ (
                kmalloc_ap 4096 s >>= λ (fresh, physical, t). ok (
                  some (fresh, address / 4096 % 1024),
                  extended t dir (address / 4096 / 1024) fresh physical,
                )) =
              rw z refl in
            let ((fresh, physical, t), allocated, e1) =
              first_part (kmalloc_ap 4096 s) _ (sym run ∙ e) in
            let (nonzero, apart) = quiet 4096 fresh physical s t allocated in
            let s0 : Paging Allocator = record s { allocator = t.allocator } in
            let i = address / 4096 / 1024 in
            let (kept, at) = extended-IsKept s0 dir address fresh physical size low z nonzero in
            let both = ok_injective e1 in
            let here : some (fresh, address / 4096 % 1024) ≡ found = cc in
            let made : extended t dir i fresh physical ≡ s' = cc in
            let last : extended s0 dir i fresh physical ≡ s' =
              ap (λ u. extended u dir i fresh physical) (sym apart) ∙ made in
            let begun : IsKept s s0 dir = record {
              same_buffer = refl;
              pages = λ b ne. refl;
              size = refl;
              tables = λ u h. h;
            } in
            (
              rw (sym last) (IsKept-trans s s0 (extended s0 dir i fresh physical) dir begun kept),
              rw (sym last) (at ∙ here),
            )
        | no ne ↦
            let run : get_page kmalloc_ap address true dir s
                ≡ ok (
                  some (
                    get_or (s.directory_at dir).tables (address / 4096 / 1024) 0,
                    address / 4096 % 1024,
                  ),
                  s,
                ) =
              ground arith in
            let both = ok_injective (sym run ∙ e) in
            let at : some (
              get_or (s.directory_at dir).tables (address / 4096 / 1024) 0,
              address / 4096 % 1024,
            )
                ≡ found =
              cc in
            let last : s ≡ s' = cc in
            (
              rw (sym last) (IsKept-refl s dir),
              rw (sym last) (pages_in_here (s.directory_at dir) address ne ∙ at),
            )
      ]

  pub provide_page-IsKept :
      (s s' : Paging Allocator) (dir address : ℕ) (ptr : PagePtr)
      → length (s.directory_at dir).tables ≡ 1024
      → address < 2 ^ 32
      → provide_page kmalloc_ap address dir s ≡ ok (ptr, s')
      → IsKept s s' dir × (pages_in (s'.directory_at dir) address ≡ some ptr)
  unfolding provide_page
  provide_page-IsKept s s' dir address ptr size low e =
      let ((found, s1), got, e1) = first_part (get_page kmalloc_ap address true dir s) _ e in
      let (p, some_page, e2) = first_part (checked found) _ e1 in
      let (s2, allocated, e3) = first_part (page_alloc_at p false true s1) _ e2 in
      let both = ok_injective e3 in
      let same : p ≡ ptr = cc in
      let last : s2 ≡ s' = cc in
      let (kept, at) = get_page-IsKept s s1 dir address found size low got in
      let then_kept = page_alloc_at-IsKept s1 s2 p false true dir allocated in
      let here : pages_in (s1.directory_at dir) address ≡ some p =
        at ∙ checked-some found p some_page in
      (
        rw (sym last) (IsKept-trans s s1 s2 dir kept then_kept),
        rw (sym last, sym same) (then_kept.pages address (λ z. no_page (sym z ∙ here)) ∙ here),
      )
