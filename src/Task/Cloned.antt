-- ===== src/Task/Cloned.antt =====
-- The user stack of a new task, from the clone of the directory to the copy of the image.
use evos.Base.{
  ℕ, ◌%◌, ◌^◌, ◌<◌, ◌≡◌, ◌≢◌, sym, ap, ◌∙◌, some, Result, ok, first_part, ok_injective, arith,
  length, get_or,
}
use evos.Paging.{Paging, PagePtr, page_at}
use evos.Paging.Lookup.{pages_in, pages_in_table}
use evos.Paging.Laws.{IsAllocator}
use evos.Paging.Clone.{clone_directory}
use evos.Paging.Clone.Laws.{clone_directory_lem}
use evos.Task.{task_user_stack_bottom, task_image_base, fill_memory, prepare_memory}
use evos.Task.Stack.{IsShared, fill_memory_shared}
use evos.Task.Buffer.{clone_directory-IsBufferKept}

module _ {Allocator : Type 0}
    (kmalloc_ap : ℕ → Paging Allocator → Result (ℕ × ℕ × Paging Allocator))
    (owned : Allocator → ℕ → Type 0) (room : Allocator → ℕ → Type 0)
    (laws : IsAllocator kmalloc_ap owned room)
    (quiet : (size a physical : ℕ) (s s' : Paging Allocator)
      → kmalloc_ap size s ≡ ok (a, physical, s')
      → (a ≢ 0) × (s' ≡ record s { allocator = s'.allocator })) where
  -- The whole of task_create's work on memory, with an allocator that has room for 1025 blocks,
  -- hands out blocks that are not null, and leaves the state of paging.c alone: let the
  -- kernel's and the current directory have the same table at the address of the user stack, and
  -- let its first page be the cloning buffer's. When this work succeeds, the new directory has the
  -- buffer's page for the user stack, and that page has the address of the frame that holds the
  -- image of the task.
  pub prepare_memory_shared :
      (image dir table : ℕ) (s s' : Paging Allocator)
      → room s.allocator 1025
      → owned s.allocator s.current_directory
      → owned s.allocator s.kernel_directory
      → table ≢ 0
      → get_or (s.directory_at s.current_directory).tables 960 0 ≡ table
      → get_or (s.directory_at s.kernel_directory).tables 960 0 ≡ table
      → s.cloning_buffer_page ≡ some (table, 0)
      → 0 < length (s.table_at table)
      → prepare_memory kmalloc_ap image s ≡ ok (dir, s')
      → (image_page : PagePtr) × (pages_in (s'.directory_at dir) task_image_base ≡ some image_page)
        × (pages_in (s'.directory_at dir) task_user_stack_bottom ≡ some (table, 0))
        × ((page_at s' (table, 0)).address ≡ (page_at s' image_page).address % 2 ^ 20)
  unfolding prepare_memory
  prepare_memory_shared image dir table s s' left held kernel_held ne at kernel_at buffer inside e =
      let ((d, s1), cloned, e1) =
        first_part (clone_directory kmalloc_ap s.current_directory s) _ e in
      let (s2, filled, e2) = first_part (fill_memory kmalloc_ap image d s1) _ e1 in
      let both = ok_injective e2 in
      let same : d ≡ dir = ap (λ (x : ℕ × Paging Allocator). x.0) both in
      let last : s2 ≡ s' = ap (λ (x : ℕ × Paging Allocator). x.1) both in
      let facts =
        clone_directory_lem kmalloc_ap owned room laws s.current_directory d s s1 left held
          kernel_held cloned in
      let kept = clone_directory-IsBufferKept kmalloc_ap quiet s.current_directory d s s1 cloned in
      let entry : get_or (s1.directory_at d).tables 960 0 ≡ table =
        (((facts.4 960 (omega arith)).1 (λ z. ne (sym at ∙ z)) (kernel_at ∙ sym at)).0) ∙ at in
      let shared : IsShared s1 d table = record {
        buffer = kept.same_buffer ∙ buffer;
        stack = pages_in_table (s1.directory_at d) task_user_stack_bottom table entry ne;
        inside = kept.tables table inside;
      } in
      rw (sym same, sym last)
        (fill_memory_shared kmalloc_ap quiet image d table s1 s2 facts.3 shared filled)
