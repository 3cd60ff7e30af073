-- ===== src/Panic/PageFault.antt =====
-- src/mm/paging.c: page_fault_handler, which shows the fault and panics. `fault_address` is the
-- content of the register cr2, and `file` is `__FILE__`.
pub mod Lines
pub mod Shown
pub mod Laws
mod Examples
use evos.Base.{ℕ, ◌==◌, if◌then◌else◌, Bool, List, [], ◌∷◌, Result, ok, ◌>>=◌}
use evos.Base.Bits.{bit}
use evos.Base.Memory.{Bytes}
use evos.Monitor.{Monitor}
use evos.Str.Vsprintf.{Arg, number, text}
use evos.Printk.{printk}
use evos.Registers.{Registers}
use evos.Backtrace.{SymbolTable}
use evos.Panic.{Console, Site, show_panic}

-- "Page-fault: page %spresent; failed on %s in %s-mode at 0x%08x\n" and "At eip=%p\n"
abbrev pub fault_format : List ℕ
fault_format =
    80 ∷ 97 ∷ 103 ∷ 101 ∷ 45 ∷ 102 ∷ 97 ∷ 117 ∷ 108 ∷ 116 ∷ 58 ∷ 32 ∷ 112 ∷ 97 ∷ 103 ∷ 101 ∷ 32 ∷ 37
    ∷ 115 ∷ 112 ∷ 114 ∷ 101 ∷ 115 ∷ 101 ∷ 110 ∷ 116 ∷ 59 ∷ 32 ∷ 102 ∷ 97 ∷ 105 ∷ 108 ∷ 101 ∷ 100
    ∷ 32 ∷ 111 ∷ 110 ∷ 32 ∷ 37 ∷ 115 ∷ 32 ∷ 105 ∷ 110 ∷ 32 ∷ 37 ∷ 115 ∷ 45 ∷ 109 ∷ 111 ∷ 100 ∷ 101
    ∷ 32 ∷ 97 ∷ 116 ∷ 32 ∷ 48 ∷ 120 ∷ 37 ∷ 48 ∷ 56 ∷ 120 ∷ 10 ∷ []

abbrev pub eip_format : List ℕ
eip_format = 65 ∷ 116 ∷ 32 ∷ 101 ∷ 105 ∷ 112 ∷ 61 ∷ 37 ∷ 112 ∷ 10 ∷ []

-- "NOT ", "write", "read", "user" and "kernel"
abbrev pub not_text : List ℕ
not_text = 78 ∷ 79 ∷ 84 ∷ 32 ∷ []

abbrev pub write_text : List ℕ
write_text = 119 ∷ 114 ∷ 105 ∷ 116 ∷ 101 ∷ []

abbrev pub read_text : List ℕ
read_text = 114 ∷ 101 ∷ 97 ∷ 100 ∷ []

abbrev pub user_text : List ℕ
user_text = 117 ∷ 115 ∷ 101 ∷ 114 ∷ []

abbrev pub kernel_text : List ℕ
kernel_text = 107 ∷ 101 ∷ 114 ∷ 110 ∷ 101 ∷ 108 ∷ []

-- "Also trampled reserved bits\n" and "Error occurred during op-fetch\n"
abbrev pub reserved_text : List ℕ
reserved_text =
    65 ∷ 108 ∷ 115 ∷ 111 ∷ 32 ∷ 116 ∷ 114 ∷ 97 ∷ 109 ∷ 112 ∷ 108 ∷ 101 ∷ 100 ∷ 32 ∷ 114 ∷ 101 ∷ 115
    ∷ 101 ∷ 114 ∷ 118 ∷ 101 ∷ 100 ∷ 32 ∷ 98 ∷ 105 ∷ 116 ∷ 115 ∷ 10 ∷ []

abbrev pub fetch_text : List ℕ
fetch_text =
    69 ∷ 114 ∷ 114 ∷ 111 ∷ 114 ∷ 32 ∷ 111 ∷ 99 ∷ 99 ∷ 117 ∷ 114 ∷ 114 ∷ 101 ∷ 100 ∷ 32 ∷ 100 ∷ 117
    ∷ 114 ∷ 105 ∷ 110 ∷ 103 ∷ 32 ∷ 111 ∷ 112 ∷ 45 ∷ 102 ∷ 101 ∷ 116 ∷ 99 ∷ 104 ∷ 10 ∷ []

-- "page_fault_handler" and "Page fault!"
abbrev pub handler_name : List ℕ
handler_name =
    112 ∷ 97 ∷ 103 ∷ 101 ∷ 95 ∷ 102 ∷ 97 ∷ 117 ∷ 108 ∷ 116 ∷ 95 ∷ 104 ∷ 97 ∷ 110 ∷ 100 ∷ 108 ∷ 101
    ∷ 114 ∷ []

abbrev pub fault_message : List ℕ
fault_message = 80 ∷ 97 ∷ 103 ∷ 101 ∷ 32 ∷ 102 ∷ 97 ∷ 117 ∷ 108 ∷ 116 ∷ 33 ∷ []

-- What the bits 0 to 2 of the error code choose.
abbrev pub present_text : ℕ → List ℕ
present_text err = if bit err 0 == 0 then not_text else []

abbrev pub access_text : ℕ → List ℕ
access_text err = if bit err 1 == 0 then read_text else write_text

abbrev pub mode_text : ℕ → List ℕ
mode_text err = if bit err 2 == 0 then kernel_text else user_text

-- A text that is shown when the bit of the error code is set.
unfoldable pub show_note : ℕ → List ℕ → Monitor → Result Monitor
show_note value note m =
    if value == 0 then ok m else (do (written, next) ← printk note [] m; ok next)

unfoldable pub page_fault_handler :
    Bytes → SymbolTable → ℕ → ℕ → List ℕ → ℕ → Registers → Console → Result Console
page_fault_handler memory table fuel ebp file fault_address regs c = do
  (w, told) ←
      printk fault_format
        (text (present_text regs.err_code)
          ∷ text (access_text regs.err_code)
          ∷ text (mode_text regs.err_code)
          ∷ number fault_address
          ∷ [])
        c.screen
  reserved ← show_note (bit regs.err_code 3) reserved_text told
  fetched ← show_note (bit regs.err_code 4) fetch_text reserved
  (w', placed) ← printk eip_format (number regs.eip ∷ []) fetched
  show_panic memory table fuel ebp (record { file = file; func = handler_name; line = 238 })
      fault_message (record c { screen = placed })
