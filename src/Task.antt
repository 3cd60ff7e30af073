-- ===== src/Task.antt =====
-- src/task/task.h and task.c: the table of tasks, the creation of a task and the switch to the
-- next one. A `task_t *` is its index in the table. What the allocator does is the parameter
-- `kmalloc_ap`, as in Paging.
pub mod Table
pub mod Turns
pub mod Laws
pub mod Kept
pub mod Stack
pub mod Buffer
pub mod Cloned
mod Examples
use evos.Base.{
  ℕ, zero, suc, ◌+◌, ◌-◌, ◌*◌, ◌/◌, ◌%◌, ◌^◌, Bool, true, false, not, ◌==◌, if◌then◌else◌, Option,
  none, some, List, [], ◌∷◌, ◌++◌, Result, ok, panic, fault, ◌>>=◌, checked, ltb, get_elem?, set,
  u32, sub32, minus_one, length,
}
use evos.Registers.{Registers, zero_registers}
use evos.Paging.{Paging, PagePtr, page_at, page_alloc_at, get_page, page_cloning_buffer}
use evos.Paging.Access.{store_virtual, point_buffer, mm_memcpy_physical}
use evos.Paging.Clone.{clone_directory}

abbrev pub max_num_tasks : ℕ
max_num_tasks = 256

abbrev pub task_image_base : ℕ
task_image_base = 0x10000000

abbrev pub task_kernel_stack_bottom : ℕ
task_kernel_stack_bottom = 0x20000000

abbrev pub task_user_stack_bottom : ℕ
task_user_stack_bottom = 0xF0000000

pub record Task : Type 0 where
  pub pid : ℕ
  pub alive : Bool
  pub page_directory : ℕ
  pub saved_state : Registers

abbrev pub zero_task : Task
zero_task = record { pid = 0; alive = false; page_directory = 0; saved_state = zero_registers }

-- The static variables; a `pid_t` is a word, and -1 is `minus_one`.
pub record Tasks : Type 0 where
  pub tasks : List Task
  pub current_task : ℕ

abbrev pub init_tasking : Tasks → Tasks
init_tasking t = record t { current_task = minus_one }

-- The loop of `find_available_task` from `i` on.
unfoldable pub find_available_from : List Task → ℕ → ℕ → Result ℕ
find_available_from tasks zero i = panic
find_available_from tasks (suc rounds) i = do
  task ← checked (get_elem? tasks i)
  let rest = find_available_from tasks rounds (i + 1)
  if not task.alive then ok i else rest

unfoldable pub find_available_task : List Task → Result ℕ
find_available_task tasks = find_available_from tasks max_num_tasks 0

-- The loop of `find_next_task`, with a number of rounds left.
unfoldable pub find_next_from : List Task → ℕ → ℕ → Result ℕ
find_next_from tasks zero next = ok minus_one
find_next_from tasks (suc rounds) next = do
  task ← checked (get_elem? tasks next)
  let rest = find_next_from tasks rounds (u32 (next + 1) % max_num_tasks)
  if task.alive then ok next else rest

unfoldable pub find_next_task : Tasks → Result ℕ
find_next_task t = find_next_from t.tasks max_num_tasks (u32 (t.current_task + 1))

-- `0x18 | 3`, `0x20 | 3` and `TASK_USER_STACK_BOTTOM + 0x0FFC`
abbrev pub start_registers : Registers
start_registers = record zero_registers {
  cs = 27;
  eip = task_image_base;
  ds = 35;
  ss = 35;
  esp = task_user_stack_bottom + 0x0FFC;
}

abbrev pub new_task : ℕ → ℕ → Task
new_task pid directory = record {
  pid = pid;
  alive = true;
  page_directory = directory;
  saved_state = start_registers;
}

-- The bytes of a word, and of the registers from `edi` to `eax`.
abbrev pub bytes_of : ℕ → List ℕ
bytes_of w = w % 256 ∷ w / 256 % 256 ∷ w / 65536 % 256 ∷ w / 16777216 % 256 ∷ []

abbrev pub general_registers : Registers → List ℕ
general_registers r =
    bytes_of r.edi
    ++ bytes_of r.esi
    ++ bytes_of r.ebp
    ++ bytes_of r.esp
    ++ bytes_of r.ebx
    ++ bytes_of r.edx
    ++ bytes_of r.ecx
    ++ bytes_of r.eax

-- What the assembly at the end of `task_switch` is given.
pub record Launch : Type 0 where
  pub page_tables : ℕ
  pub stack : ℕ
  pub instruction : ℕ

module _ {Allocator : Type 0} where
  unfoldable pub store_bytes : ℕ → List ℕ → Paging Allocator → Result (Paging Allocator)
  store_bytes address [] s = ok s
  store_bytes address (b ∷ bytes) s = do
    s' ← store_virtual s address b
    store_bytes (address + 1) bytes s'

  -- `mm_memcpy_physical` from an object that is a record of the model, given by its bytes.
  unfoldable pub copy_to_physical : ℕ → List ℕ → Paging Allocator → Result (Paging Allocator)
  copy_to_physical dest_physical bytes s =
      if ltb 0x1000 (u32 (dest_physical % 4096 + length bytes)) then panic else (do
        pointed ← point_buffer dest_physical s
        store_bytes (page_cloning_buffer + dest_physical % 4096) bytes pointed)

module _ {Allocator : Type 0}
    (kmalloc_ap : ℕ → Paging Allocator → Result (ℕ × ℕ × Paging Allocator)) where
  -- `page_alloc(get_page(address, TRUE, directory), FALSE, TRUE)`, with the page.
  unfoldable pub provide_page : ℕ → ℕ → Paging Allocator → Result (PagePtr × Paging Allocator)
  provide_page address directory s = do
    (found, s1) ← get_page kmalloc_ap address true directory s
    ptr ← checked found
    s2 ← page_alloc_at ptr false true s1
    ok (ptr, s2)

  -- The pages of a task in its directory, and its image.
  unfoldable pub fill_memory : ℕ → ℕ → Paging Allocator → Result (Paging Allocator)
  fill_memory image directory s = do
    (image_page, s1) ← provide_page task_image_base directory s
    (user_stack, s2) ← provide_page task_user_stack_bottom directory s1
    (kernel_stack, s3) ← provide_page task_kernel_stack_bottom directory s2
    mm_memcpy_physical (u32 ((page_at s3 image_page).address * 0x1000)) image 0x1000 s3

  unfoldable pub prepare_memory : ℕ → Paging Allocator → Result (ℕ × Paging Allocator)
  prepare_memory image s = do
    (directory, s1) ← clone_directory kmalloc_ap s.current_directory s
    s2 ← fill_memory image directory s1
    ok (directory, s2)

  unfoldable pub task_create :
      ℕ → ℕ → Tasks × Paging Allocator → Result (ℕ × Tasks × Paging Allocator)
  task_create image image_size (t, s) = do
    pid ← find_available_task t.tasks
    (directory, s') ← prepare_memory image s
    ok (pid, record t { tasks = set t.tasks pid (new_task pid directory) }, s')

  -- The task that runs next, the bytes to the two interrupt controllers, and the launch.
  unfoldable pub task_switch :
      Tasks × Paging Allocator → Result (Launch × List (ℕ × ℕ) × Tasks × Paging Allocator)
  task_switch (t, s) = do
    next_task ← find_next_task t
    task ← checked (get_elem? t.tasks next_task)
    let state = task.saved_state
    let offset = sub32 (sub32 state.esp task_user_stack_bottom) 40
    (found, s1) ← get_page kmalloc_ap task_user_stack_bottom false task.page_directory s
    ptr ← checked found
    s2 ←
        copy_to_physical (u32 ((page_at s1 ptr).address * 0x1000 + offset))
          (general_registers state) s1
    ok (
      record {
        page_tables = (s2.directory_at task.page_directory).ismeta_tables_physical_addr;
        stack = state.esp;
        instruction = state.eip;
      },
      (0x20, 0x20) ∷ (0xA0, 0x20) ∷ [],
      record t { current_task = next_task },
      s2,
    )
