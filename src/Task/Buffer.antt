-- ===== src/Task/Buffer.antt =====
-- The cloning buffer while a directory is cloned.
use evos.Base.{
  ℕ, zero, suc, ◌+◌, ◌*◌, ◌/◌, ◌%◌, ◌^◌, ◌<◌, ◌≡◌, ◌≢◌, refl, sym, ap, ◌∙◌, inl, inr, true, not,
  Result, ok, ◌>>=◌, first_part, ok_injective, checked, arith, length, get_or, length-replicate,
  ℕ_discrete, Bool-cases, ◌==◌, bit_or, u32,
}
use evos.Paging.{
  Page, zero_page, zero_table, zero_directory, PageDirectory, Paging, PagePtr, page_at, write_page,
  update, page_alloc_at, page_cloning_buffer,
}
use evos.Paging.Access.{point_buffer, clone_page_to_physical}
use evos.Paging.Lookup.{update_lem}
use evos.Paging.Clone.{
  clone_page, clone_pages, set_entry, clone_table, clone_entry, clone_entries, clone_directory,
}
use evos.Task.Kept.{write_page-length, page_alloc_at-IsKept}
use evos.Task.Stack.{with_ram, memcpy_virtual-with_ram}

module _ {Allocator : Type 0} where
  -- The pointer to the buffer's page stays, and so does every table that has pages.
  pub record IsBufferKept (s s' : Paging Allocator) : Type 0 where
    pub same_buffer : s'.cloning_buffer_page ≡ s.cloning_buffer_page
    pub tables : (t : ℕ) → 0 < length (s.table_at t) → 0 < length (s'.table_at t)

  IsBufferKept-refl : (s : Paging Allocator) → IsBufferKept s s
  IsBufferKept-refl s = record { same_buffer = refl; tables = λ t h. h }

  IsBufferKept-trans :
      (s s1 s2 : Paging Allocator) → IsBufferKept s s1 → IsBufferKept s1 s2 → IsBufferKept s s2
  IsBufferKept-trans s s1 s2 k l = record {
    same_buffer = l.same_buffer ∙ k.same_buffer;
    tables = λ t h. l.tables t (k.tables t h);
  }

  write_page-IsBufferKept :
      (s : Paging Allocator) (ptr : PagePtr) (page : Page) (r : ℕ → ℕ → ℕ)
      → IsBufferKept s (with_ram (write_page ptr page s) r)
  write_page-IsBufferKept s (u, i) page r = record {
    same_buffer = refl;
    tables = λ t h. omega (arith, write_page-length s u i t page);
  }

  clone_page_to_physical-IsBufferKept :
      (src dest : ℕ) (s s' : Paging Allocator)
      → clone_page_to_physical src dest s ≡ ok s'
      → IsBufferKept s s'
  unfolding clone_page_to_physical point_buffer
  clone_page_to_physical-IsBufferKept src dest s s' e =
      let (pointed, p, e1) = first_part (point_buffer dest s) _ e in
      let (ptr, q, e2) = first_part (checked s.cloning_buffer_page) _ p in
      let (r, last) = memcpy_virtual-with_ram 4096 page_cloning_buffer src pointed s' e1 in
      let page = record (page_at s ptr) { address = dest / 4096 % 2 ^ 20; present = true } in
      let made : write_page ptr page s ≡ pointed = ok_injective e2 in
      rw (last, sym made) (write_page-IsBufferKept s ptr page r)

  clone_page-IsBufferKept :
      (table_index src dest i : ℕ) (s s' : Paging Allocator)
      → clone_page table_index src dest i s ≡ ok s'
      → IsBufferKept s s'
  unfolding clone_page
  clone_page-IsBufferKept table_index src dest i s s' e =
      let sp = page_at s (src, i) in
      elim (Bool-cases (sp.address == 0)) [
        | inl none_there ↦
            let same : clone_page table_index src dest i s ≡ ok s = rw none_there refl in
            let last : s ≡ s' = ok_injective (sym same ∙ e) in rw (sym last) (IsBufferKept-refl s)
        | inr there ↦
            let run : clone_page table_index src dest i s ≡ (
                page_alloc_at (dest, i) (not sp.user_mode) sp.writeable s >>= λ allocated.
                clone_page_to_physical (u32 ((table_index * 1024 + i) * 4096))
                  (u32 ((page_at allocated (dest, i)).address * 4096)) allocated) =
              rw there refl in
            let (s1, allocated, e1) =
              first_part (page_alloc_at (dest, i) (not sp.user_mode) sp.writeable s) _
                (sym run ∙ e) in
            let k =
              page_alloc_at-IsKept s s1 (dest, i) (not sp.user_mode) sp.writeable 0 allocated in
            IsBufferKept-trans s s1 s' (record { same_buffer = k.same_buffer; tables = k.tables })
              (clone_page_to_physical-IsBufferKept _ _ s1 s' e1)
      ]

  clone_pages-IsBufferKept :
      (rounds table_index src dest i : ℕ) (s s' : Paging Allocator)
      → clone_pages rounds table_index src dest i s ≡ ok s'
      → IsBufferKept s s'
  unfolding clone_pages
  clone_pages-IsBufferKept zero table_index src dest i s s' e =
      rw (sym (ok_injective e)) (IsBufferKept-refl s)
  clone_pages-IsBufferKept (suc rounds) table_index src dest i s s' e =
      let (s1, one, e1) = first_part (clone_page table_index src dest i s) _ e in
      IsBufferKept-trans s s1 s' (clone_page-IsBufferKept table_index src dest i s s1 one)
        (clone_pages-IsBufferKept rounds table_index src dest (i + 1) s1 s' e1)

module _ {Allocator : Type 0}
    (kmalloc_ap : ℕ → Paging Allocator → Result (ℕ × ℕ × Paging Allocator))
    (quiet : (size a physical : ℕ) (s s' : Paging Allocator)
      → kmalloc_ap size s ≡ ok (a, physical, s')
      → (a ≢ 0) × (s' ≡ record s { allocator = s'.allocator })) where
  kmalloc_ap-IsBufferKept :
      (size a physical : ℕ) (s s' : Paging Allocator)
      → kmalloc_ap size s ≡ ok (a, physical, s')
      → IsBufferKept s s'
  kmalloc_ap-IsBufferKept size a physical s s' e =
      let apart = (quiet size a physical s s' e).1 in
      record {
        same_buffer = ap (λ (u : Paging Allocator). u.cloning_buffer_page) apart;
        tables = λ t h. omega (arith, ap (λ (u : Paging Allocator). length (u.table_at t)) apart);
      }

  new_table-IsBufferKept :
      (s : Paging Allocator) (dest : ℕ)
      → IsBufferKept s (record s { table_at = update s.table_at dest zero_table })
  new_table-IsBufferKept s dest = record {
    same_buffer = refl;
    tables = λ t h. elim (ℕ_discrete t dest) [
      | yes e ↦ omega (
        arith,
        ap length ((update_lem s.table_at dest zero_table t).0 e),
        length-replicate 1024 zero_page,
      )
      | no ne ↦ omega (arith, ap length ((update_lem s.table_at dest zero_table t).1 ne))
    ];
  }

  clone_table-IsBufferKept :
      (table_index src dest physical : ℕ) (s s' : Paging Allocator)
      → clone_table kmalloc_ap table_index src s ≡ ok (dest, physical, s')
      → IsBufferKept s s'
  unfolding clone_table
  clone_table-IsBufferKept table_index src dest physical s s' e =
      let ((a, p, s1), allocated, e1) = first_part (kmalloc_ap 4096 s) _ e in
      let s2 : Paging Allocator = record s1 { table_at = update s1.table_at a zero_table } in
      let (s3, cloned, e2) = first_part (clone_pages 1024 table_index src a 0 s2) _ e1 in
      let last : s3 ≡ s' = ap (λ (x : ℕ × ℕ × Paging Allocator). x.2) (ok_injective e2) in
      rw (sym last) (
        IsBufferKept-trans s s1 s3 (kmalloc_ap-IsBufferKept 4096 a p s s1 allocated) (
          IsBufferKept-trans s1 s2 s3 (new_table-IsBufferKept s1 a)
            (clone_pages-IsBufferKept 1024 table_index src a 0 s2 s3 cloned)))

  set_entry-IsBufferKept :
      (dir i table physical : ℕ) (s : Paging Allocator)
      → IsBufferKept s (set_entry dir i table physical s)
  set_entry-IsBufferKept dir i table physical s = record { same_buffer = refl; tables = λ t h. h }

  clone_entry-IsBufferKept :
      (src dir i : ℕ) (s s' : Paging Allocator)
      → clone_entry kmalloc_ap src dir i s ≡ ok s'
      → IsBufferKept s s'
  unfolding clone_entry
  clone_entry-IsBufferKept src dir i s s' e =
      let table = get_or (s.directory_at src).tables i 0 in
      elim (Bool-cases (table == 0)) [
        | inl missing ↦
            let same : clone_entry kmalloc_ap src dir i s ≡ ok s = rw missing refl in
            let last : s ≡ s' = ok_injective (sym same ∙ e) in rw (sym last) (IsBufferKept-refl s)
        | inr there ↦
            elim (Bool-cases (get_or (s.directory_at s.kernel_directory).tables i 0 == table)) [
              | inl shared ↦
                  let physical = get_or (s.directory_at src).tables_physical_addr i 0 in
                  let same : clone_entry kmalloc_ap src dir i s
                      ≡ ok (set_entry dir i table physical s) =
                    rw (there, shared) refl in
                  let last : set_entry dir i table physical s ≡ s' = ok_injective (sym same ∙ e) in
                  rw (sym last) (set_entry-IsBufferKept dir i table physical s)
              | inr own ↦
                  let run : clone_entry kmalloc_ap src dir i s ≡ (
                      clone_table kmalloc_ap i table s >>= λ (dest, physical, s').
                      ok (set_entry dir i dest (bit_or physical 7) s')) =
                    rw (there, own) refl in
                  let ((dest, physical, s1), cloned, e1) =
                    first_part (clone_table kmalloc_ap i table s) _ (sym run ∙ e) in
                  let last : set_entry dir i dest (bit_or physical 7) s1 ≡ s' = ok_injective e1 in
                  rw (sym last) (
                    IsBufferKept-trans s s1 (set_entry dir i dest (bit_or physical 7) s1)
                      (clone_table-IsBufferKept i table dest physical s s1 cloned)
                      (set_entry-IsBufferKept dir i dest (bit_or physical 7) s1))
            ]
      ]

  clone_entries-IsBufferKept :
      (rounds src dir i : ℕ) (s s' : Paging Allocator)
      → clone_entries kmalloc_ap rounds src dir i s ≡ ok s'
      → IsBufferKept s s'
  unfolding clone_entries
  clone_entries-IsBufferKept zero src dir i s s' e = rw (sym (ok_injective e)) (IsBufferKept-refl s)
  clone_entries-IsBufferKept (suc rounds) src dir i s s' e =
      let (s1, one, e1) = first_part (clone_entry kmalloc_ap src dir i s) _ e in
      IsBufferKept-trans s s1 s' (clone_entry-IsBufferKept src dir i s s1 one)
        (clone_entries-IsBufferKept rounds src dir (i + 1) s1 s' e1)

  pub clone_directory-IsBufferKept :
      (src dir : ℕ) (s s' : Paging Allocator)
      → clone_directory kmalloc_ap src s ≡ ok (dir, s')
      → IsBufferKept s s'
  unfolding clone_directory
  clone_directory-IsBufferKept src dir s s' e =
      let ((a, p, s1), allocated, e1) = first_part (kmalloc_ap 8196 s) _ e in
      let blank : PageDirectory = record zero_directory {
        ismeta_tables_physical_addr = u32 (p + 4096);
      } in
      let s2 : Paging Allocator = record s1 { directory_at = update s1.directory_at a blank } in
      let (s3, cloned, e2) = first_part (clone_entries kmalloc_ap 1024 src a 0 s2) _ e1 in
      let last : s3 ≡ s' = ap (λ (x : ℕ × Paging Allocator). x.1) (ok_injective e2) in
      let begun : IsBufferKept s1 s2 = record { same_buffer = refl; tables = λ t h. h } in
      rw (sym last) (
        IsBufferKept-trans s s1 s3 (kmalloc_ap-IsBufferKept 8196 a p s s1 allocated) (
          IsBufferKept-trans s1 s2 s3 begun (clone_entries-IsBufferKept 1024 src a 0 s2 s3 cloned)))
