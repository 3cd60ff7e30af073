-- ===== src/Task/Examples.antt =====
-- Tables of tasks, and the memory of a new task.
use evos.Base.{
  ℕ, ◌+◌, ◌%◌, ◌^◌, ◌≤◌, ◌<◌, ◌≡◌, ◌≢◌, ◌⊎◌, refl, sym, true, false, some, Result, ok, panic, fault,
  ap, ◌>>=◌, List, [], ◌∷◌, arith, set, replicate, ◌==◌, if◌then◌else◌, u32, minus_one,
}
use evos.Bitset.{find_free, set_bit, scan_words, scan_word, check_set}
use evos.Frame.{frame_alloc}
use evos.Paging.{Page, PagePtr, zero_page, Paging, page_at, page_alloc, page_alloc_at, get_page}
use evos.Paging.Copy.{pointed_to, mm_memcpy_physical_lem}
use evos.Paging.Lookup.{pages_in}
use evos.Task.{
  Task, zero_task, new_task, find_next_task, find_next_from, provide_page, fill_memory,
  prepare_memory, task_user_stack_bottom, task_image_base, task_kernel_stack_bottom,
}
use evos.Task.Table.{is_alive, IsNext, find_next_task_lem}
use evos.Task.Turns.{IsReached, round_robin}
use evos.Task.Cloned.{prepare_memory_shared}
use evos.Paging.Laws.{IsAllocator}
use evos.Paging.Clone.{clone_directory, clone_entries, clone_entry}

-- Tasks in the slots 1 and 3 of a table of 256.
abbrev two_tasks : List Task
two_tasks = zero_task ∷ new_task 1 0x1000 ∷ zero_task ∷ new_task 3 0x2000 ∷ replicate 252 zero_task

find_next_task_lem_example :
    ((256 ≤ u32 (3 + 1))
      × (find_next_task (record { tasks = two_tasks; current_task = 3 }) ≡ fault))
    ⊎ (((d : ℕ) → d < 256 → is_alive two_tasks d ≡ false)
        × (find_next_task (record { tasks = two_tasks; current_task = 3 }) ≡ ok minus_one))
    ⊎ ((pid : ℕ) × (find_next_task (record { tasks = two_tasks; current_task = 3 }) ≡ ok pid)
        × IsNext two_tasks 256 (u32 (3 + 1)) pid)
find_next_task_lem_example =
    find_next_task_lem (record { tasks = two_tasks; current_task = 3 }) refl

find_next_task_run : find_next_task (record { tasks = two_tasks; current_task = 3 }) ≡ ok 1
unfolding find_next_task find_next_from
find_next_task_run = refl

-- Behind the last slot the search leaves the table.
find_next_task_past : find_next_task (record { tasks = two_tasks; current_task = 255 }) ≡ fault
unfolding find_next_task find_next_from
find_next_task_past = refl

round_robin_example :
    (n : ℕ) × (0 < n)
    × (n ≤ 256)
    × IsReached (record { tasks = two_tasks; current_task = minus_one }) 3 n
round_robin_example =
    round_robin (record { tasks = two_tasks; current_task = minus_one }) 3 refl refl (omega arith)
      (omega arith) refl

-- An allocator that counts up.
abbrev next_block : ℕ → Paging ℕ → Result (ℕ × ℕ × Paging ℕ)
next_block size s =
    ok (s.allocator + 0x4000, s.allocator + 0x4000, record s { allocator = s.allocator + 0x4000 })

next_block_lem :
    (size a physical : ℕ) (s s' : Paging ℕ)
    → next_block size s ≡ ok (a, physical, s')
    → (a ≢ 0) × (s' ≡ record s { allocator = s'.allocator })
next_block_lem size a physical s s' e =
    let address : s.allocator + 0x4000 ≡ a = cc in
    let last : record s { allocator = s.allocator + 0x4000 } ≡ s' = cc in
    (λ z. omega arith, rw (sym last) refl)

-- Blocks up to the counter have been handed out, and there is always room.
abbrev Counted : ℕ → ℕ → Type 0
Counted k a = a ≤ k

abbrev Roomy : ℕ → ℕ → Type 0
Roomy k n = k ≤ k

next_block-IsAllocator : IsAllocator next_block Counted Roomy
next_block-IsAllocator = record {
  gives = λ size n s left some_size small. (
    s.allocator + 0x4000,
    s.allocator + 0x4000,
    record s { allocator = s.allocator + 0x4000 },
    refl,
    record {
      nonzero = λ e. omega arith;
      unused = λ old. omega arith;
      mine = omega arith;
      kept = λ b old. omega arith;
      apart = refl;
      more = omega arith;
    },
  );
  fewer = λ k n left. omega arith;
}

-- The cloning buffer is page 0 of the table at 0x106000; page 1 of the table at 0x107000 is frame 5.
abbrev tables : ℕ → List Page
tables a =
    if a == 0x106000
    then zero_page ∷ []
    else zero_page ∷ record zero_page { present = true; address = 5 } ∷ []

abbrev entries : List ℕ
entries = set (set (replicate 1024 0) 960 0x106000) 0 0x107000

abbrev state : Paging ℕ
state = record {
  allocator = 0x200000;
  frames = record { frames = record { base = 1 ∷ []; size = 1 }; num_frames = 32 };
  table_at = tables;
  directory_at =
      λ a. record { tables = entries; tables_physical_addr = []; ismeta_tables_physical_addr = 0 };
  kernel_directory = 0x108000;
  current_directory = 0x108000;
  cloning_buffer_page = some (0x106000, 0);
  ram = λ frame k. frame + k;
}

abbrev clone_after : Result (ℕ × Paging ℕ) → Paging ℕ
clone_after panic = state
clone_after fault = state
clone_after (ok (dir, s)) = s

abbrev after : Result (PagePtr × Paging ℕ) → Paging ℕ
after panic = state
after fault = state
after (ok (ptr, s)) = s

abbrev cloned_state : Paging ℕ
cloned_state = clone_after (clone_directory next_block 0x108000 state)

abbrev image_state : Paging ℕ
image_state = after (provide_page next_block task_image_base 0x204000 cloned_state)

abbrev stack_state : Paging ℕ
stack_state = after (provide_page next_block task_user_stack_bottom 0x204000 image_state)

abbrev full_state : Paging ℕ
full_state = after (provide_page next_block task_kernel_stack_bottom 0x204000 stack_state)

copy_runs :
    (r : ℕ → ℕ → ℕ) × (prepare_memory next_block 0x1000 state
      ≡ ok (0x204000, record (pointed_to full_state (0x106000, 0) 1) { ram = r }))
unfolding prepare_memory fill_memory provide_page get_page page_alloc_at page_alloc frame_alloc
    find_free set_bit scan_words scan_word check_set clone_directory clone_entries clone_entry
copy_runs =
    let copy =
      mm_memcpy_physical_lem full_state 0x1000 0x1000 0x1000 0x106000 0 0x107000 1 5 refl refl
        (omega arith) refl (λ e. absurd (omega arith)) refl refl (omega arith) (omega arith)
        (omega arith) in
    ((copy.1 (omega arith)).0, ap (λ x. x >>= λ s. ok (0x204000, s)) (copy.1 (omega arith)).1)

prepare_memory_shared_example :
    (image_page : PagePtr) × (pages_in (full_state.directory_at 0x204000) task_image_base
      ≡ some image_page)
    × (pages_in (full_state.directory_at 0x204000) task_user_stack_bottom ≡ some (0x106000, 0))
    × ((page_at (pointed_to full_state (0x106000, 0) 1) (0x106000, 0)).address
        ≡ (page_at (pointed_to full_state (0x106000, 0) 1) image_page).address % 2 ^ 20)
prepare_memory_shared_example =
    prepare_memory_shared next_block Counted Roomy next_block-IsAllocator next_block_lem 0x1000
      0x204000 0x106000 state (record (pointed_to full_state (0x106000, 0) 1) { ram = copy_runs.0 })
      (omega arith) (omega arith) (omega arith) (omega arith) refl refl refl (omega arith)
      copy_runs.1
