-- ===== src/Startup.antt =====
-- src/main.c: how the start of the kernel puts the parts together. `__kmain` fills the tables of
-- segments and interrupts, starts the timer and registers the system calls; a tick of the timer
-- switches the task. The parts of src/gdt.c, src/idt.c, src/timer.c and src/syscall.c that print
-- or only call others are here too.
pub mod Laws
mod Examples
use evos.Base.{ℕ, true, List, [], ◌∷◌, ◌++◌, some, Result, ok, ◌>>=◌}
use evos.Monitor.{Monitor}
use evos.Printk.{printk, report_success}
use evos.Gdt.{GdtEntry, TssEntry, gdt_entries, tss_contents}
use evos.Idt.{IdtEntry, Handlers, register_handler, init_idt, remap_pic}
use evos.Timer.{init_timer}
use evos.Paging.{Paging}
use evos.Task.{Tasks, Launch, task_switch}

-- Addresses of functions and static variables.
pub record Symbols : Type 0 where
  pub tss : ℕ
  pub kernel_relocated_stack : ℕ
  pub isr : ℕ → ℕ
  pub irq : ℕ → ℕ
  pub isr_0x80 : ℕ
  pub timer_callback : ℕ
  pub syscall_handler : ℕ

-- The state that the start fills; `ports` holds the bytes that have gone to ports.
pub record Machine : Type 0 where
  pub screen : Monitor
  pub gdt : List GdtEntry
  pub tss : TssEntry
  pub idt : List IdtEntry
  pub handlers : Handlers
  pub ports : List (ℕ × ℕ)

-- "Loading a new GDT", "Loading a new IDT" and "Remapping the PIC"
abbrev pub loading_gdt : List ℕ
loading_gdt =
    76 ∷ 111 ∷ 97 ∷ 100 ∷ 105 ∷ 110 ∷ 103 ∷ 32 ∷ 97 ∷ 32 ∷ 110 ∷ 101 ∷ 119 ∷ 32 ∷ 71 ∷ 68 ∷ 84 ∷ []

abbrev pub loading_idt : List ℕ
loading_idt =
    76 ∷ 111 ∷ 97 ∷ 100 ∷ 105 ∷ 110 ∷ 103 ∷ 32 ∷ 97 ∷ 32 ∷ 110 ∷ 101 ∷ 119 ∷ 32 ∷ 73 ∷ 68 ∷ 84 ∷ []

abbrev pub remapping : List ℕ
remapping =
    82 ∷ 101 ∷ 109 ∷ 97 ∷ 112 ∷ 112 ∷ 105 ∷ 110 ∷ 103 ∷ 32 ∷ 116 ∷ 104 ∷ 101 ∷ 32 ∷ 80 ∷ 73 ∷ 67
    ∷ []

-- A text and the report that what it names is done.
unfoldable pub announce : List ℕ → Monitor → Result Monitor
announce text m = do (written, next) ← printk text [] m; report_success next

-- `init_gdt` with `init_tss`, but for the instructions that load the registers.
unfoldable pub init_gdt : Symbols → Machine → Result Machine
init_gdt symbols k = do
  screen ← announce loading_gdt k.screen
  ok (record k {
    gdt = gdt_entries true symbols.tss;
    tss = tss_contents symbols.kernel_relocated_stack;
    screen = screen;
  })

-- `init_idt`, but for the instruction that loads the table's address.
unfoldable pub load_idt : Symbols → Machine → Result Machine
load_idt symbols k = do
  loaded ← announce loading_idt k.screen
  remapped ← announce remapping loaded
  ok (record k {
    idt = init_idt symbols.isr symbols.irq symbols.isr_0x80;
    ports = k.ports ++ remap_pic;
    screen = remapped;
  })

unfoldable pub start_timer : Symbols → Machine → Result Machine
start_timer symbols k = do
  (bytes, handlers, screen) ← init_timer symbols.timer_callback 50 (k.handlers, k.screen)
  ok (record k { handlers = handlers; ports = k.ports ++ bytes; screen = screen })

unfoldable pub init_syscalls : Symbols → Machine → Machine
init_syscalls symbols k = record k {
  handlers = register_handler k.handlers 0x80 (some symbols.syscall_handler);
}

-- `__kmain` up to the point where interrupts are enabled.
unfoldable pub set_up : Symbols → Machine → Result Machine
set_up symbols k = do
  k1 ← init_gdt symbols k
  k2 ← load_idt symbols k1
  k3 ← start_timer symbols k2
  ok (init_syscalls symbols k3)

-- `timer_callback`
unfoldable pub timer_callback :
    {Allocator : Type 0}
    → (ℕ → Paging Allocator → Result (ℕ × ℕ × Paging Allocator))
    → Tasks × Paging Allocator
    → Result (Launch × List (ℕ × ℕ) × Tasks × Paging Allocator)
timer_callback kmalloc_ap s = task_switch kmalloc_ap s
