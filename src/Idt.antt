-- ===== src/Idt.antt =====
-- src/idt.c, isr.c and isr.h: the interrupt descriptor table, the table of handlers, and the two
-- handlers that the assembly stubs call. A handler is its address; what a call of an interrupt's
-- handler does beyond the events listed here is not modelled.
pub mod Laws
mod Examples
use Prim.Native.String.{String}
use evos.Base.{
  ℕ, zero, suc, ◌+◌, ◌-◌, ◌*◌, ◌/◌, ◌%◌, ◌^◌, Bool, Option, none, some, List, [], ◌∷◌, ◌++◌, Result,
  ok, panic, true, ◌>>=◌, checked, leb, ◌==◌, if◌then◌else◌, get_elem?, set, replicate,
}

-- `idt_flags_t`, a byte of bit-fields
pub record IdtFlags : Type 0 where
  pub gate_type : ℕ
  pub storage_segment : ℕ
  pub privilege_level : ℕ
  pub present : ℕ

-- `idt_entry_t`
pub record IdtEntry : Type 0 where
  pub handler_addr_lower : ℕ
  pub segment : ℕ
  pub reserved : ℕ
  pub flags : IdtFlags
  pub handler_addr_upper : ℕ

abbrev pub cleared : IdtEntry
cleared = record {
  handler_addr_lower = 0;
  segment = 0;
  reserved = 0;
  flags = record { gate_type = 0; storage_segment = 0; privilege_level = 0; present = 0 };
  handler_addr_upper = 0;
}

-- `idt_set_handler`; every field of the entry is written.
unfoldable pub handler_entry : ℕ → ℕ → IdtFlags → IdtEntry
handler_entry address segment flags = record {
  handler_addr_lower = address % 2 ^ 16;
  segment = segment;
  reserved = 0;
  flags = flags;
  handler_addr_upper = address / 2 ^ 16 % 2 ^ 16;
}

-- The flags of `init_idt` at a privilege level.
abbrev pub gate_flags : ℕ → IdtFlags
gate_flags level = record {
  gate_type = 0x0E;
  storage_segment = 0;
  privilege_level = level;
  present = 1;
}

-- `SET_HANDLER` for `count` numbers from `first` on, with the handlers from `number` on.
unfoldable pub set_handlers : (ℕ → ℕ) → ℕ → ℕ → ℕ → List IdtEntry → List IdtEntry
set_handlers handler zero first number table = table
set_handlers handler (suc count) first number table =
    set_handlers handler count (suc first) (suc number)
      (set table first (handler_entry (handler number) 0x08 (gate_flags 0)))

-- What `init_idt` leaves in `idt_entries`, given the addresses of the stubs `isr_n`, `irq_n` and
-- `isr_0x80`.
unfoldable pub init_idt : (ℕ → ℕ) → (ℕ → ℕ) → ℕ → List IdtEntry
init_idt isr irq isr_0x80 = set_handlers irq 16 32 0 (
    set (set_handlers isr 32 0 0 (replicate 256 cleared)) 0x80
      (handler_entry isr_0x80 0x08 (gate_flags 3)))

-- Port and value of each `outb` of `remap_pic`.
unfoldable pub remap_pic : List (ℕ × ℕ)
remap_pic =
    (0x20, 0x11)
    ∷ (0xA0, 0x11)
    ∷ (0x21, 32)
    ∷ (0xA1, 40)
    ∷ (0x21, 0x04)
    ∷ (0xA1, 0x02)
    ∷ (0x21, 0x01)
    ∷ (0xA1, 0x01)
    ∷ (0x21, 0x0)
    ∷ (0xA1, 0x0)
    ∷ []

-- `interrupt_handlers`, 256 pointers; a null pointer is `none`.
abbrev pub Handlers : Type 0
Handlers = List (Option ℕ)

-- `isr_register_handler`; a number from 256 on is out of the array.
unfoldable pub register_handler : Handlers → ℕ → Option ℕ → Handlers
register_handler handlers int_no handler = set handlers int_no handler

-- `interrupt_name`: 19 names and a null pointer
unfoldable pub interrupt_name : List (Option String)
interrupt_name =
    some "Division by zero"
    ∷ some "Single-step/debug exception"
    ∷ some "Non-maskable interrupt"
    ∷ some "Breakpoint"
    ∷ some "Detected overflow (INTO)"
    ∷ some "Bounds check failed (BOUND)"
    ∷ some "Invalid opcode"
    ∷ some "Coprocessor not available"
    ∷ some "Double fault"
    ∷ some "Coprocessor segment overrun"
    ∷ some "Invalid TSS"
    ∷ some "Segment not present"
    ∷ some "Stack fault"
    ∷ some "General protection fault"
    ∷ some "Page fault"
    ∷ some "(reserved)"
    ∷ some "Coprocessor fault"
    ∷ some "Alignment check exception"
    ∷ some "Machine check exception"
    ∷ none
    ∷ []

-- `if (!name) name = default_interrupt_name;`
abbrev pub name_or_default : Option String → String
name_or_default none = "unknown"
name_or_default (some name) = name

-- What a handler does that can be seen: a call, a line on the screen, a byte on a port.
pub data Event : Type 0 where
  call : ℕ → ℕ → Event
  received : ℕ → String → Event
  outb : ℕ → ℕ → Event

-- The first part of `isr_common_handler`.
unfoldable pub dispatch : Handlers → ℕ → Result (List Event)
dispatch handlers int_no = do
  handler ← checked (get_elem? handlers int_no)
  elim handler [
    | some address ↦ ok (call address int_no ∷ [])
    | none ↦ do
      name ← checked (get_elem? interrupt_name int_no)
      ok (received int_no (name_or_default name) ∷ [])
  ]

unfoldable pub isr_common_handler : Handlers → ℕ → Result (List Event)
unfolding dispatch
isr_common_handler handlers int_no = do
  events ← dispatch handlers int_no
  if int_no == 13 then panic else ok events

-- What the call of a handler does: the events of its body, and whether it returns. A handler that
-- switches the task does not: it ends in an `iret`.
abbrev pub Run : Type 0
Run = ℕ → ℕ → List Event × Bool

unfoldable pub call_if_set : Run → Option ℕ → ℕ → List Event × Bool
call_if_set run none int_no = ([], true)
call_if_set run (some address) int_no =
    let (events, returns) = run address int_no in (call address int_no ∷ events, returns)

-- The bytes that tell the PICs that the request is served.
abbrev pub end_of_interrupt : ℕ → List Event
end_of_interrupt int_no = (if leb 40 int_no then outb 0xA0 0x20 ∷ [] else []) ++ outb 0x20 0x20 ∷ []

-- What is seen of `irq_common_handler`, with the part behind a call that does not return left out.
unfoldable pub irq_common_handler : Run → Handlers → ℕ → Result (List Event)
unfolding call_if_set
irq_common_handler run handlers int_no = do
  handler ← checked (get_elem? handlers int_no)
  let (events, returns) = call_if_set run handler int_no
  ok (events ++ (if returns then end_of_interrupt int_no else []))
