-- ===== src/Panic/PageFault/Laws.antt =====
-- What a page fault shows.
use evos.Base.{
  refl, ℕ, ap, ◌^◌, ◌<◌, ◌≡◌, ◌≢◌, ◌∙◌, true, false, List, ◌++◌, All, ok, arith, length,
}
use evos.Base.Bits.{bit}
use evos.Base.Memory.{Bytes}
use evos.Monitor.{write}
use evos.Monitor.Laws.{IsValid, write-append}
use evos.Registers.{Registers}
use evos.Str.Vsprintf.Fields.{IsWritten}
use evos.Backtrace.{SymbolTable}
use evos.Backtrace.Laws.{IsStack}
use evos.Panic.{Console, Site, double_panic, trace_text}
use evos.Panic.Lines.{header_text, IsText}
use evos.Panic.Laws.{IsTrace, HasShortNames, show_panic_lem}
use evos.Panic.PageFault.{
  reserved_text, fetch_text, handler_name, fault_message, present_text, access_text, mode_text,
  page_fault_handler,
}
use evos.Panic.PageFault.Shown.{
  present_shown, access_shown, mode_shown, reserved_shown, fetch_shown, present_chosen,
  access_chosen, mode_chosen, reserved_chosen, fetch_chosen,
}
use evos.Panic.PageFault.Lines.{
  fault_text, eip_text, note_text, fault_line, eip_line, note_lem, notes_plain, texts-IsBrief,
}

-- Where the handler panics.
abbrev pub fault_site : List ℕ → Site
fault_site file = record { file = file; func = handler_name; line = 238 }

fault_site-IsText :
    (file : List ℕ)
    → All (λ c. c ≢ 0) file
    → length file < 2000
    → IsText (fault_site file) fault_message
fault_site-IsText file nonzero short =
    (ground arith, nonzero, ground arith, omega arith, omega arith)

-- What the handler writes before it panics, with the digits of the two addresses.
abbrev pub report : ℕ → List ℕ → List ℕ → List ℕ → List ℕ
report err fs es rest =
    fault_text (present_shown (bit err 0)) (access_shown (bit err 1)) (mode_shown (bit err 2)) fs
    ++ (reserved_shown (bit err 3) ++ (fetch_shown (bit err 4) ++ (eip_text es ++ rest)))

-- The texts that the handler chooses are these.
report_lem :
    (err : ℕ) (fs es rest : List ℕ)
    → report err fs es rest
      ≡ fault_text (present_text err) (access_text err) (mode_text err) fs
        ++ (note_text (bit err 3) reserved_text
            ++ (note_text (bit err 4) fetch_text ++ (eip_text es ++ rest)))
report_lem err fs es rest =
    rw
      (
        present_chosen (bit err 0),
        access_chosen (bit err 1),
        mode_chosen (bit err 2),
        reserved_chosen (bit err 3),
        fetch_chosen (bit err 4),
      )
      refl

-- What page_fault_handler shows, with the cursor on the screen, memory that holds bytes, a stack whose
-- frames end and texts that fit the buffer of printk. Its line says "NOT present" if the
-- bit 0 of the error code is clear and "present" otherwise, "read" or "write" as bit 1 is clear or
-- set, "kernel" or "user" as bit 2 is, and the address that faulted; the notes on reserved bits and on
-- an op-fetch follow if bit 3 and bit 4 are set, and then eip; behind this stands
-- what a panic shows: the site, the message and the trace of the stack if it is the first, and
-- the text of a double panic otherwise. After that the flag is set.
pub page_fault_handler_lem :
    (memory : Bytes) (table : SymbolTable) (fuel ebp : ℕ) (eips file : List ℕ) (fault_address : ℕ)
    (regs : Registers) (c : Console)
    → ((b : ℕ) → memory b < 256)
    → IsStack memory ebp eips
    → length eips < fuel
    → HasShortNames memory table eips
    → All (λ c. c ≢ 0) file
    → length file < 2000
    → fault_address < 2 ^ 32
    → regs.eip < 2 ^ 32
    → IsValid c.screen
    → (c' : Console) × (fs : List ℕ) × (es : List ℕ) × (page_fault_handler memory table fuel ebp
          file fault_address regs c
        ≡ ok c')
      × (c'.panicked_before ≡ true)
      × IsValid c'.screen
      × IsWritten 16 fault_address fs
      × IsWritten 16 regs.eip es
      × (c.panicked_before ≡ true
          → write c.screen (report regs.err_code fs es double_panic) ≡ ok c'.screen)
      × (c.panicked_before ≡ false
          → (ds : List ℕ) × (lines : List ℕ) × IsWritten 10 238 ds
            × IsTrace memory table eips lines
            × (write c.screen (
                  report regs.err_code fs es
                    (header_text (fault_site file) ds fault_message ++ (trace_text ++ lines)))
                ≡ ok c'.screen))
unfolding page_fault_handler
page_fault_handler_lem memory table fuel ebp eips file fault_address regs c bytes stack enough names
      nonzero short word word' v =
    let err = regs.err_code in
    let (brief1, brief2, brief3) = texts-IsBrief err in
    let (fs, m1, digits, r1, w1, v1) =
      fault_line (present_text err) (access_text err) (mode_text err) fault_address c.screen brief1
        brief2 brief3 word v in
    let (m2, r2, w2, v2) = note_lem (bit err 3) reserved_text m1 notes_plain.0 (omega arith) v1 in
    let (m3, r3, w3, v3) = note_lem (bit err 4) fetch_text m2 notes_plain.1 (omega arith) v2 in
    let (es, m4, digits', r4, w4, v4) = eip_line regs.eip m3 word' v3 in
    let (c', run, flag, valid, again, first) =
      show_panic_lem memory table fuel ebp eips (fault_site file) fault_message
        (record c { screen = m4 }) bytes stack enough names (fault_site-IsText file nonzero short)
        v4 in
    let told : (rest : List ℕ) → write c.screen (report err fs es rest) ≡ write m4 rest = λ rest.
      ap (write c.screen) (report_lem err fs es rest)
      ∙ write-append c.screen m1
          (fault_text (present_text err) (access_text err) (mode_text err) fs) _ w1
      ∙ write-append m1 m2 (note_text (bit err 3) reserved_text) _ w2
      ∙ write-append m2 m3 (note_text (bit err 4) fetch_text) _ w3
      ∙ write-append m3 m4 (eip_text es) rest w4 in
    (
      c',
      fs,
      es,
      rw (r1, r2, r3, r4) run,
      flag,
      valid,
      digits,
      digits',
      (λ e. told double_panic ∙ again e),
      λ e.
          let (ds, lines, decimal, trace, wrote) = first e in
          (
            ds,
            lines,
            decimal,
            trace,
            told (header_text (fault_site file) ds fault_message ++ (trace_text ++ lines)) ∙ wrote,
          ),
    )
