-- ===== src/Startup/Examples.antt =====
-- A start with an empty screen and no handlers, and a tick before the first task.
use evos.Base.{
  ℕ, ◌+◌, ◌*◌, ◌≡◌, ◌≢◌, ap, true, Option, none, some, [], ◌∷◌, ◌++◌, ok, fault, arith, replicate,
  length-replicate, get_or-replicate, get_elem?,
}
use evos.Monitor.{blank}
use evos.Monitor.Laws.{IsValid}
use evos.Gdt.{gdt_entries, tss_contents}
use evos.Idt.{call, init_idt, remap_pic, isr_common_handler}
use evos.Paging.{zero_directory, Paging}
use evos.Task.{Task, Tasks, zero_task, init_tasking}
use evos.Startup.{Symbols, Machine, set_up, timer_callback}
use evos.Startup.Laws.{set_up_lem, timer_callback_no_task}

abbrev symbols : Symbols
symbols = record {
  tss = 0x110000;
  kernel_relocated_stack = 0x130000;
  isr = λ n. 0x101000 + 16 * n;
  irq = λ n. 0x102000 + 16 * n;
  isr_0x80 = 0x103000;
  timer_callback = 0x104000;
  syscall_handler = 0x105000;
}

abbrev cold : Machine
cold = record {
  screen = record { video_buffer = replicate 2000 blank; cur_x = 0; cur_y = 3; outs = [] };
  gdt = [];
  tss = tss_contents 0;
  idt = [];
  handlers = replicate 256 none;
  ports = [];
}

cold-IsValid : IsValid cold.screen
unfolding IsValid
cold-IsValid = (length-replicate 2000 blank, omega arith, omega arith)

set_up_lem_example :
    (k' : Machine) × (set_up symbols cold ≡ ok k')
    × IsValid k'.screen
    × (k'.gdt ≡ gdt_entries true 0x110000)
    × (k'.tss ≡ tss_contents 0x130000)
    × (k'.idt ≡ init_idt symbols.isr symbols.irq 0x103000)
    × (k'.ports ≡ ([] ++ remap_pic) ++ (0x43, 0x36) ∷ (0x40, 55) ∷ (0x40, 93) ∷ [])
    × (isr_common_handler k'.handlers 0x80 ≡ ok (call 0x105000 0x80 ∷ []))
    × (get_elem? k'.handlers 32 ≡ some (some 0x104000))
    × ((j : ℕ)
        → j ≢ 32
        → j ≢ 0x80
        → get_elem? k'.handlers j ≡ get_elem? {A = Option ℕ} (replicate 256 none) j)
set_up_lem_example = set_up_lem symbols cold cold-IsValid (length-replicate {A = Option ℕ} 256 none)

abbrev no_tasks : Tasks
no_tasks = init_tasking (record { tasks = replicate 256 zero_task; current_task = 0 })

abbrev unpaged : Paging ℕ
unpaged = record {
  allocator = 0x200000;
  frames = record { frames = record { base = 0 ∷ []; size = 1 }; num_frames = 32 };
  table_at = λ a. [];
  directory_at = λ a. zero_directory;
  kernel_directory = 0x108000;
  current_directory = 0x108000;
  cloning_buffer_page = none;
  ram = λ frame k. 0;
}

timer_callback_no_task_example :
    timer_callback (λ size p. ok (0x4000, 0x4000, p)) (no_tasks, unpaged) ≡ fault
timer_callback_no_task_example =
    timer_callback_no_task (λ size p. ok (0x4000, 0x4000, p)) no_tasks unpaged
      (length-replicate {A = Task} 256 zero_task) (omega arith)
      (λ j h. ap (λ (t : Task). t.alive) (get_or-replicate 256 j zero_task))
