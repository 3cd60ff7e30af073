-- ===== src/Panic.antt =====
-- src/panic.c and src/mm/paging.c: what a panic and a page fault show on the screen. After that the
-- machine halts. `memory` is the memory that holds the stack and the symbols.
pub mod Lines
pub mod Laws
pub mod PageFault
mod Examples
use evos.Base.{
  ℕ, zero, suc, ◌+◌, ◌^◌, Bool, true, false, ◌==◌, if◌then◌else◌, Option, none, some, List, [], ◌∷◌,
  Result, ok, fault, ◌>>=◌,
}
use evos.Base.Bits.{bit}
use evos.Base.Memory.{Bytes, load32}
use evos.Monitor.{Monitor}
use evos.Str.Vsprintf.{number, text}
use evos.Printk.{printk}
use evos.Backtrace.{SymbolTable, backtrace_lookup}
use evos.Backtrace.Sections.{chars_at}

-- The screen, and the static variable of `__panic`.
pub record Console : Type 0 where
  pub screen : Monitor
  pub panicked_before : Bool

-- Where a panic happens: `__FILE__`, `__func__` and `__LINE__`.
pub record Site : Type 0 where
  pub file : List ℕ
  pub func : List ℕ
  pub line : ℕ

-- "Double-panic. Flip the switch to `more magic' and try again"
abbrev pub double_panic : List ℕ
double_panic =
    68 ∷ 111 ∷ 117 ∷ 98 ∷ 108 ∷ 101 ∷ 45 ∷ 112 ∷ 97 ∷ 110 ∷ 105 ∷ 99 ∷ 46 ∷ 32 ∷ 70 ∷ 108 ∷ 105
    ∷ 112 ∷ 32 ∷ 116 ∷ 104 ∷ 101 ∷ 32 ∷ 115 ∷ 119 ∷ 105 ∷ 116 ∷ 99 ∷ 104 ∷ 32 ∷ 116 ∷ 111 ∷ 32 ∷ 96
    ∷ 109 ∷ 111 ∷ 114 ∷ 101 ∷ 32 ∷ 109 ∷ 97 ∷ 103 ∷ 105 ∷ 99 ∷ 39 ∷ 32 ∷ 97 ∷ 110 ∷ 100 ∷ 32 ∷ 116
    ∷ 114 ∷ 121 ∷ 32 ∷ 97 ∷ 103 ∷ 97 ∷ 105 ∷ 110 ∷ []

-- "\n\rKernel panic\n'%s' in file %s:%d: %s\n" and "Stack trace:\n"
abbrev pub panic_format : List ℕ
panic_format =
    10 ∷ 13 ∷ 75 ∷ 101 ∷ 114 ∷ 110 ∷ 101 ∷ 108 ∷ 32 ∷ 112 ∷ 97 ∷ 110 ∷ 105 ∷ 99 ∷ 10 ∷ 39 ∷ 37 ∷ 115
    ∷ 39 ∷ 32 ∷ 105 ∷ 110 ∷ 32 ∷ 102 ∷ 105 ∷ 108 ∷ 101 ∷ 32 ∷ 37 ∷ 115 ∷ 58 ∷ 37 ∷ 100 ∷ 58 ∷ 32
    ∷ 37 ∷ 115 ∷ 10 ∷ []

abbrev pub trace_text : List ℕ
trace_text = 83 ∷ 116 ∷ 97 ∷ 99 ∷ 107 ∷ 32 ∷ 116 ∷ 114 ∷ 97 ∷ 99 ∷ 101 ∷ 58 ∷ 10 ∷ []

-- "  [%#08x] %s\n" and "(null)"
abbrev pub frame_format : List ℕ
frame_format = 32 ∷ 32 ∷ 91 ∷ 37 ∷ 35 ∷ 48 ∷ 56 ∷ 120 ∷ 93 ∷ 32 ∷ 37 ∷ 115 ∷ 10 ∷ []

abbrev pub null_name : List ℕ
null_name = 40 ∷ 110 ∷ 117 ∷ 108 ∷ 108 ∷ 41 ∷ []

-- The text that a name of `backtrace_lookup` points to. One byte more than fits the buffer of printk
-- is read at most.
abbrev pub name_text : Bytes → Option ℕ → List ℕ
name_text memory none = null_name
name_text memory (some a) = chars_at memory 4096 a

-- `print_stack_trace` from the frame pointer `ebp` on. The loop has no bound, and runs on fuel.
unfoldable pub show_stack_trace : Bytes → SymbolTable → ℕ → ℕ → Monitor → Result Monitor
show_stack_trace memory table zero ebp m = fault
show_stack_trace memory table (suc fuel) ebp m = elim (ebp == 0) [
  | Bool.true ↦ ok m
  | Bool.false ↦ do
    let eip = load32 memory (ebp + 4)
    let name = name_text memory (backtrace_lookup memory table eip)
    (written, next) ← printk frame_format (number eip ∷ text name ∷ []) m
    show_stack_trace memory table fuel (load32 memory ebp) next
]

-- `__panic` up to the instruction that halts.
unfoldable pub show_panic : Bytes → SymbolTable → ℕ → ℕ → Site → List ℕ → Console → Result Console
show_panic memory table fuel ebp site msg c =
    if c.panicked_before
    then (do (written, next) ← printk double_panic [] c.screen; ok (record c { screen = next }))
    else (do
      (written, header) ←
          printk panic_format (text site.func ∷ text site.file ∷ number site.line ∷ text msg ∷ [])
            c.screen
      (written', titled) ← printk trace_text [] header
      next ← show_stack_trace memory table fuel ebp titled
      ok (record { screen = next; panicked_before = true }))
