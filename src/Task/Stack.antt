-- ===== src/Task/Stack.antt =====
-- The user stack of a task and the cloning buffer.
use evos.Base.{
  ℕ, zero, suc, ◌+◌, ◌*◌, ◌/◌, ◌%◌, ◌^◌, ◌<◌, ◌≡◌, ◌≢◌, refl, sym, ap, ◌∙◌, inl, inr, true, some,
  Result, ok, panic, first_part, ok_injective, arith, length, u32, Bool-cases, ltb, ap₂, ℕ_discrete,
}
use evos.Paging.Copy.{page_at-write_page, page_at-write_page_ne}
use evos.Paging.{Page, Paging, PagePtr, page_at, write_page, update, page_cloning_buffer}
use evos.Paging.Access.{
  translate, load_virtual, store_virtual, memcpy_virtual, point_buffer, mm_memcpy_physical, mapped,
}
use evos.Paging.Lookup.{pages_in}
use evos.Task.Kept.{IsKept-trans, no_page, provide_page-IsKept}
use evos.Task.{
  task_user_stack_bottom, task_image_base, task_kernel_stack_bottom, provide_page, fill_memory,
}

module _ {Allocator : Type 0} where
  abbrev pub with_ram : Paging Allocator → (ℕ → ℕ → ℕ) → Paging Allocator
  with_ram s r = record s { ram = r }

  store_virtual-with_ram :
      (s s' : Paging Allocator) (address byte : ℕ)
      → store_virtual s address byte ≡ ok s'
      → (r : ℕ → ℕ → ℕ) × (s' ≡ with_ram s r)
  unfolding store_virtual
  store_virtual-with_ram s s' address byte e =
      let (frame, found, e') = first_part (mapped (translate s s.current_directory address)) _ e in
      (update s.ram frame (update (s.ram frame) (address % 4096) byte), sym (ok_injective e'))

  -- A copy through virtual addresses changes the bytes of memory and nothing else.
  pub memcpy_virtual-with_ram :
      (num dest src : ℕ) (s s' : Paging Allocator)
      → memcpy_virtual dest src num s ≡ ok s'
      → (r : ℕ → ℕ → ℕ) × (s' ≡ with_ram s r)
  unfolding memcpy_virtual
  memcpy_virtual-with_ram zero dest src s s' e = (s.ram, sym (ok_injective e))
  memcpy_virtual-with_ram (suc num) dest src s s' e =
      let (byte, loaded, e1) = first_part (load_virtual s src) _ e in
      let (s1, stored, e2) = first_part (store_virtual s dest byte) _ e1 in
      let (r1, same1) = store_virtual-with_ram s s1 dest byte stored in
      let (r, same) = memcpy_virtual-with_ram num (dest + 1) (src + 1) s1 s' e2 in
      (r, same ∙ ap (λ u. with_ram u r) same1)

  -- The state in which the cloning buffer stands for the frame of an address.
  abbrev pointed : Paging Allocator → PagePtr → ℕ → Paging Allocator
  pointed s ptr dest =
      write_page ptr (record (page_at s ptr) { address = dest / 4096 % 2 ^ 20; present = true }) s

  mm_memcpy_physical-with_ram :
      (s s' : Paging Allocator) (ptr : PagePtr) (dest src size : ℕ)
      → s.cloning_buffer_page ≡ some ptr
      → mm_memcpy_physical dest src size s ≡ ok s'
      → (r : ℕ → ℕ → ℕ) × (s' ≡ with_ram (pointed s ptr dest) r)
  unfolding mm_memcpy_physical point_buffer
  mm_memcpy_physical-with_ram s s' ptr dest src size buffer e =
      elim (Bool-cases (ltb 0x1000 (u32 (dest % 4096 + size)))) [
        | inl long ↦
            let stopped : mm_memcpy_physical dest src size s ≡ panic = rw long refl in
            let both : panic ≡ ok s' = sym stopped ∙ e in cc
        | inr short ↦
            let runs : mm_memcpy_physical dest src size s
                ≡ memcpy_virtual (page_cloning_buffer + dest % 4096) src size (pointed s ptr dest) =
              rw (short, buffer) refl in
            memcpy_virtual-with_ram size (page_cloning_buffer + dest % 4096) src
              (pointed s ptr dest) s' (sym runs ∙ e)
      ]

  -- The cloning buffer's page is the one that a directory has for the user stack.
  pub record IsShared (s : Paging Allocator) (dir table : ℕ) : Type 0 where
    pub buffer : s.cloning_buffer_page ≡ some (table, 0)
    pub stack : pages_in (s.directory_at dir) task_user_stack_bottom ≡ some (table, 0)
    pub inside : 0 < length (s.table_at table)

  same_frame :
      (s : Paging Allocator) (table : ℕ) (ptr : PagePtr)
      → 0 < length (s.table_at table)
      → (page_at (pointed s (table, 0) (u32 ((page_at s ptr).address * 0x1000))) (table, 0)).address
        ≡ (page_at (pointed s (table, 0) (u32 ((page_at s ptr).address * 0x1000))) ptr).address
          % 2 ^ 20
  same_frame s table (t, i) inside =
      let frame = (page_at s (t, i)).address in
      let dest = u32 (frame * 0x1000) in
      let page = record (page_at s (table, 0)) { address = dest / 4096 % 2 ^ 20; present = true } in
      let there : (page_at (pointed s (table, 0) dest) (table, 0)).address ≡ dest / 4096 % 2 ^ 20 =
        ap (λ (q : Page). q.address) (page_at-write_page s table 0 page inside) in
      elim (ℕ_discrete t table) [
        | no other ↦
            let kept : (page_at (pointed s (table, 0) dest) (t, i)).address ≡ frame =
              ap (λ (q : Page). q.address)
                (page_at-write_page_ne s table 0 t i page (λ e. absurd (other e))) in
            omega (arith, there, kept)
        | yes e ↦ elim (ℕ_discrete i 0) [
          | no other ↦
              let kept : (page_at (pointed s (table, 0) dest) (t, i)).address ≡ frame =
                ap (λ (q : Page). q.address)
                  (page_at-write_page_ne s table 0 t i page (λ f. other)) in
              omega (arith, there, kept)
          | yes z ↦
              let same : page_at (pointed s (table, 0) dest) (t, i)
                  ≡ page_at (pointed s (table, 0) dest) (table, 0) =
                ap₂ (λ u v. page_at (pointed s (table, 0) dest) (u, v)) e z in
              omega (arith, there, ap (λ (q : Page). q.address) same)
        ]
      ]

module _ {Allocator : Type 0}
    (kmalloc_ap : ℕ → Paging Allocator → Result (ℕ × ℕ × Paging Allocator))
    (quiet : (size a physical : ℕ) (s s' : Paging Allocator)
      → kmalloc_ap size s ≡ ok (a, physical, s')
      → (a ≢ 0) × (s' ≡ record s { allocator = s'.allocator })) where
  -- For a directory of 1024 entries that has the page of the cloning buffer at the address of the user
  -- stack, as a clone has that shares the buffer's table, and an allocator that hands out blocks
  -- that are not null and leaves the state of paging.c alone: when the rest of task_create succeeds,
  -- the page of the user stack has the address of the frame that the page of the image has, whatever
  -- frame it had before.
  pub fill_memory_shared :
      (image dir table : ℕ) (s s' : Paging Allocator)
      → length (s.directory_at dir).tables ≡ 1024
      → IsShared s dir table
      → fill_memory kmalloc_ap image dir s ≡ ok s'
      → (image_page : PagePtr) × (pages_in (s'.directory_at dir) task_image_base ≡ some image_page)
        × (pages_in (s'.directory_at dir) task_user_stack_bottom ≡ some (table, 0))
        × ((page_at s' (table, 0)).address ≡ (page_at s' image_page).address % 2 ^ 20)
  unfolding fill_memory
  fill_memory_shared image dir table s s' size shared e =
      let ((image_page, s1), r1, e1) =
        first_part (provide_page kmalloc_ap task_image_base dir s) _ e in
      let ((user, s2), r2, e2) =
        first_part (provide_page kmalloc_ap task_user_stack_bottom dir s1) _ e1 in
      let ((kernel, s3), r3, e3) =
        first_part (provide_page kmalloc_ap task_kernel_stack_bottom dir s2) _ e2 in
      let (k1, at) =
        provide_page-IsKept kmalloc_ap quiet s s1 dir task_image_base image_page size (omega arith)
          r1 in
      let (k2, there) =
        provide_page-IsKept kmalloc_ap quiet s1 s2 dir task_user_stack_bottom user (k1.size ∙ size)
          (omega arith) r2 in
      let (k3, else_) =
        provide_page-IsKept kmalloc_ap quiet s2 s3 dir task_kernel_stack_bottom kernel
          (k2.size ∙ k1.size ∙ size) (omega arith) r3 in
      let k23 = IsKept-trans s1 s2 s3 dir k2 k3 in
      let k = IsKept-trans s s1 s3 dir k1 k23 in
      let frame = (page_at s3 image_page).address in
      let (r, last) =
        mm_memcpy_physical-with_ram s3 s' (table, 0) (u32 (frame * 0x1000)) image 0x1000
          (k.same_buffer ∙ shared.buffer) e3 in
      (
        image_page,
        ap (λ (u : Paging Allocator). pages_in (u.directory_at dir) task_image_base) last
            ∙ k23.pages task_image_base (λ z. no_page (sym z ∙ at))
            ∙ at,
        ap (λ (u : Paging Allocator). pages_in (u.directory_at dir) task_user_stack_bottom) last
            ∙ k.pages task_user_stack_bottom (λ z. no_page (sym z ∙ shared.stack))
            ∙ shared.stack,
        rw last (same_frame s3 table image_page (k.tables table shared.inside)),
      )
