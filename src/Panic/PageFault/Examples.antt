-- ===== src/Panic/PageFault/Examples.antt =====
-- A write to an absent page in user mode, with an empty stack.
use evos.Base.{
  ℕ, ◌<◌, ◌≡◌, refl, Bool, true, false, List, [], ◌∷◌, ◌++◌, ok, arith, replicate, length-replicate,
  ◌==◌, if◌then◌else◌,
}
use evos.Base.Memory.{Bytes, load32}
use evos.Monitor.{blank, write}
use evos.Monitor.Laws.{IsValid}
use evos.Registers.{Registers, zero_registers}
use evos.Str.Vsprintf.Fields.{IsWritten}
use evos.Backtrace.{SymbolTable, backtrace_lookup, lookup_from}
use evos.Backtrace.Laws.{IsStack}
use evos.Panic.{Console, double_panic, trace_text, null_name, name_text}
use evos.Panic.Lines.{header_text}
use evos.Panic.Laws.{IsTrace, HasShortNames}
use evos.Panic.PageFault.{fault_message, page_fault_handler}
use evos.Panic.PageFault.Laws.{report, fault_site, page_fault_handler_lem}

-- A frame at 0x2000 with the return address 7, and no symbols.
abbrev memory : Bytes
memory a = if a == 0x2004 then 7 else 0

abbrev table : SymbolTable
table = record { symbols = 0; strtab = 0; num_symbols = 0 }

found : name_text memory (backtrace_lookup memory table 7) ≡ null_name
unfolding backtrace_lookup lookup_from
found = refl

found_short : HasShortNames memory table (7 ∷ [])
found_short = (rw found (omega arith), tt)

frame : IsStack memory 0x2000 (7 ∷ [])
unfolding IsStack load32
frame = (ground arith, refl, refl)

memory_byte : (b : ℕ) → memory b < 256
memory_byte b = ground arith

abbrev regs : Registers
regs = record zero_registers { err_code = 6; eip = 0x40000000 }

abbrev console : Console
console = record {
  screen = record { video_buffer = replicate 2000 blank; cur_x = 0; cur_y = 3; outs = [] };
  panicked_before = false;
}

console-IsValid : IsValid console.screen
unfolding IsValid
console-IsValid = (length-replicate 2000 blank, omega arith, omega arith)

page_fault_handler_lem_example :
    (c' : Console) × (fs : List ℕ) × (es : List ℕ) × (page_fault_handler memory table 2 0x2000
        (112 ∷ [])
        0x1234
        regs
        console
      ≡ ok c')
    × (c'.panicked_before ≡ true)
    × IsValid c'.screen
    × IsWritten 16 0x1234 fs
    × IsWritten 16 0x40000000 es
    × (◌≡◌ {A = Bool} false true
        → write console.screen (report 6 fs es double_panic) ≡ ok c'.screen)
    × (◌≡◌ {A = Bool} false false
        → (ds : List ℕ) × (lines : List ℕ) × IsWritten 10 238 ds
          × IsTrace memory table (7 ∷ []) lines
          × (write console.screen (
                report 6 fs es
                  (header_text (fault_site (112 ∷ [])) ds fault_message ++ (trace_text ++ lines)))
              ≡ ok c'.screen))
page_fault_handler_lem_example =
    page_fault_handler_lem memory table 2 0x2000 (7 ∷ []) (112 ∷ []) 0x1234 regs console memory_byte
      frame (omega arith) found_short (ground arith) (omega arith) (omega arith) (omega arith)
      console-IsValid
