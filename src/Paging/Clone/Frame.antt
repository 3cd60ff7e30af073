-- ===== src/Paging/Clone/Frame.antt =====
-- What cloning a table leaves alone: the directories, and what kmalloc has handed out.
use evos.Base.{
  ℕ, zero, suc, ◌+◌, ◌≡◌, refl, sym, ap, ◌∙◌, inl, inr, Bool, ◌==◌, ok, first_part, Bool-cases,
  checked, ok_injective,
}
use evos.Paging.{PagePtr, Paging, page_at, page_alloc, page_alloc_at}
use evos.Paging.Access.{
  mapped, translate, load_virtual, store_virtual, memcpy_virtual, point_buffer,
  clone_page_to_physical,
}
use evos.Paging.Clone.{clone_page, clone_pages}

module _ {Allocator : Type 0} where
  -- Directories and allocator are as they were.
  pub record IsAside (s s' : Paging Allocator) : Type 0 where
    pub directories : s'.directory_at ≡ s.directory_at
    pub kernel : s'.kernel_directory ≡ s.kernel_directory
    pub allocated : s'.allocator ≡ s.allocator

  pub IsAside-trans : (s t u : Paging Allocator) → IsAside s t → IsAside t u → IsAside s u
  IsAside-trans s t u a b = record {
    directories = b.directories ∙ a.directories;
    kernel = b.kernel ∙ a.kernel;
    allocated = b.allocated ∙ a.allocated;
  }

  IsAside-refl : (s : Paging Allocator) → IsAside s s
  IsAside-refl s = record { directories = refl; kernel = refl; allocated = refl }

  store_virtual-IsAside :
      (s s' : Paging Allocator) (address byte : ℕ)
      → store_virtual s address byte ≡ ok s'
      → IsAside s s'
  unfolding store_virtual
  store_virtual-IsAside s s' address byte e =
      let (frame, found, e1) = first_part (mapped (translate s s.current_directory address)) _ e in
      record {
        directories = ap (λ (t : Paging Allocator). t.directory_at) (sym (ok_injective e1));
        kernel = ap (λ (t : Paging Allocator). t.kernel_directory) (sym (ok_injective e1));
        allocated = ap (λ (t : Paging Allocator). t.allocator) (sym (ok_injective e1));
      }

  memcpy_virtual-IsAside :
      (num dest src : ℕ) (s s' : Paging Allocator)
      → memcpy_virtual dest src num s ≡ ok s'
      → IsAside s s'
  unfolding memcpy_virtual
  memcpy_virtual-IsAside zero dest src s s' e = rw (sym (ok_injective e)) (IsAside-refl s)
  memcpy_virtual-IsAside (suc num) dest src s s' e =
      let (byte, loaded, e1) = first_part (load_virtual s src) _ e in
      let (t, stored, e2) = first_part (store_virtual s dest byte) _ e1 in
      IsAside-trans s t s' (store_virtual-IsAside s t dest byte stored)
        (memcpy_virtual-IsAside num (dest + 1) (src + 1) t s' e2)

  point_buffer-IsAside :
      (s s' : Paging Allocator) (dest : ℕ) → point_buffer dest s ≡ ok s' → IsAside s s'
  unfolding point_buffer
  point_buffer-IsAside s s' dest e =
      let (ptr, found, e1) = first_part (checked s.cloning_buffer_page) _ e in
      record {
        directories = ap (λ (t : Paging Allocator). t.directory_at) (sym (ok_injective e1));
        kernel = ap (λ (t : Paging Allocator). t.kernel_directory) (sym (ok_injective e1));
        allocated = ap (λ (t : Paging Allocator). t.allocator) (sym (ok_injective e1));
      }

  page_alloc_at-IsAside :
      (s s' : Paging Allocator) (ptr : PagePtr) (kernel_mode writeable : Bool)
      → page_alloc_at ptr kernel_mode writeable s ≡ ok s'
      → IsAside s s'
  unfolding page_alloc_at
  page_alloc_at-IsAside s s' ptr kernel_mode writeable e =
      let ((page, frames'), found, e1) =
        first_part (page_alloc s.frames (page_at s ptr) kernel_mode writeable) _ e in
      record {
        directories = ap (λ (t : Paging Allocator). t.directory_at) (sym (ok_injective e1));
        kernel = ap (λ (t : Paging Allocator). t.kernel_directory) (sym (ok_injective e1));
        allocated = ap (λ (t : Paging Allocator). t.allocator) (sym (ok_injective e1));
      }

  clone_page-IsAside :
      (s s' : Paging Allocator) (table_index src dest i : ℕ)
      → clone_page table_index src dest i s ≡ ok s'
      → IsAside s s'
  unfolding clone_page clone_page_to_physical
  clone_page-IsAside s s' table_index src dest i e =
      elim (Bool-cases ((page_at s (src, i)).address == 0)) [
        | inl unmapped ↦ rw (sym (ok_injective (rw unmapped at e))) (IsAside-refl s)
        | inr has_frame ↦
            let e0 = rw has_frame at e in
            let (t, allocated, e1) = first_part (page_alloc_at (dest, i) _ _ s) _ e0 in
            let (u, pointed, e2) = first_part (point_buffer _ t) _ e1 in
            IsAside-trans s t s' (page_alloc_at-IsAside s t (dest, i) _ _ allocated) (
              IsAside-trans t u s' (point_buffer-IsAside t u _ pointed)
                (memcpy_virtual-IsAside 4096 _ _ u s' e2))
      ]

  pub clone_pages-IsAside :
      (rounds table_index src dest i : ℕ) (s s' : Paging Allocator)
      → clone_pages rounds table_index src dest i s ≡ ok s'
      → IsAside s s'
  unfolding clone_pages
  clone_pages-IsAside zero table_index src dest i s s' e =
      rw (sym (ok_injective e)) (IsAside-refl s)
  clone_pages-IsAside (suc rounds) table_index src dest i s s' e =
      let (t, one, e1) = first_part (clone_page table_index src dest i s) _ e in
      IsAside-trans s t s' (clone_page-IsAside s t table_index src dest i one)
        (clone_pages-IsAside rounds table_index src dest (i + 1) t s' e1)
