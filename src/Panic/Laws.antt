-- ===== src/Panic/Laws.antt =====
-- What a panic shows.
use evos.Base.{
  ℕ, zero, suc, ◌+◌, ◌^◌, ◌<◌, ◌≡◌, ◌≢◌, refl, sym, ◌∙◌, true, false, Option, none, some, List, [],
  ◌∷◌, ◌++◌, All, ok, ◌>>=◌, arith, length, Bool-cases, inl, inr,
}
use evos.Base.Memory.{Bytes, load32}
use evos.Monitor.{Monitor, write}
use evos.Monitor.Laws.{IsValid, write-append}
use evos.Str.Vsprintf.{number, text}
use evos.Str.Vsprintf.Fields.{IsWritten}
use evos.Printk.{printk}
use evos.Printk.Plain.{is_plain, is_plain-IsPlain, printk_plain}
use evos.Backtrace.{SymbolTable, backtrace_lookup}
use evos.Backtrace.Laws.{IsStack}
use evos.Backtrace.Sections.{chars_at}
use evos.Backtrace.Sections.Copy.{chars_at-IsByte}
use evos.Str.Laws.{IsByte}
use evos.Panic.Lines.{frame_line, header_text, IsText, frame_lem, header_lem}
use evos.Panic.{
  Console, Site, frame_format, double_panic, trace_text, name_text, show_stack_trace, show_panic,
}

-- The lines for the return addresses of a stack, each with the name that is found for it.
abbrev pub IsTrace : Bytes → SymbolTable → List ℕ → List ℕ → Type 0
IsTrace memory table [] lines = lines ≡ []
IsTrace memory table (eip ∷ eips) lines =
    (ds : List ℕ) × (rest : List ℕ) × IsWritten 16 eip ds
    × (lines ≡ frame_line ds (name_text memory (backtrace_lookup memory table eip)) ++ rest)
    × IsTrace memory table eips rest

-- The names for the return addresses leave room in the buffer of printk.
abbrev pub HasShortNames : Bytes → SymbolTable → List ℕ → Type 0
HasShortNames memory table eips =
    All (λ eip. length (name_text memory (backtrace_lookup memory table eip)) < 4000) eips

word_lt : (memory : Bytes) (a : ℕ) → ((b : ℕ) → memory b < 256) → load32 memory a < 2 ^ 32
unfolding load32
word_lt memory a bytes = omega (arith, bytes a, bytes (a + 1), bytes (a + 2), bytes (a + 3))

nonzero_of : (str : List ℕ) → All IsByte str → All (λ c. c ≢ 0) str
nonzero_of [] all = tt
nonzero_of (c ∷ str) ((some_byte, byte), all) = ((λ e. omega arith), nonzero_of str all)

name_nonzero :
    (memory : Bytes) (name : Option ℕ)
    → ((b : ℕ) → memory b < 256)
    → All (λ c. c ≢ 0) (name_text memory name)
name_nonzero memory none bytes = ground arith
name_nonzero memory (some a) bytes =
    nonzero_of (chars_at memory 4096 a) (chars_at-IsByte memory 4096 a bytes)

trace_end :
    (memory : Bytes) (table : SymbolTable) (fuel ebp : ℕ) (m : Monitor)
    → ebp ≡ 0
    → show_stack_trace memory table (suc fuel) ebp m ≡ ok m
unfolding show_stack_trace
trace_end memory table fuel ebp m z = ground arith

trace_open :
    (memory : Bytes) (table : SymbolTable) (fuel ebp : ℕ) (m : Monitor)
    → ebp ≢ 0
    → show_stack_trace memory table (suc fuel) ebp m ≡ (
        printk frame_format
          (number (load32 memory (ebp + 4))
            ∷ text (name_text memory (backtrace_lookup memory table (load32 memory (ebp + 4))))
            ∷ [])
          m
        >>= λ r. show_stack_trace memory table fuel (load32 memory ebp) r.1)
unfolding show_stack_trace
trace_open memory table fuel ebp m ne = ground arith

trace_step :
    (memory : Bytes) (table : SymbolTable) (fuel ebp : ℕ) (m next : Monitor)
    → ebp ≢ 0
    → printk frame_format
        (number (load32 memory (ebp + 4))
          ∷ text (name_text memory (backtrace_lookup memory table (load32 memory (ebp + 4))))
          ∷ [])
        m
      ≡ ok (0, next)
    → show_stack_trace memory table (suc fuel) ebp m
      ≡ show_stack_trace memory table fuel (load32 memory ebp) next
trace_step memory table fuel ebp m next ne printed =
    trace_open memory table fuel ebp m ne ∙ rw printed refl

show_stack_trace_lem :
    (memory : Bytes) (table : SymbolTable) (fuel ebp : ℕ) (eips : List ℕ) (m : Monitor)
    → ((b : ℕ) → memory b < 256)
    → IsStack memory ebp eips
    → length eips < fuel
    → HasShortNames memory table eips
    → IsValid m
    → (lines : List ℕ) × (next : Monitor) × IsTrace memory table eips lines
      × (show_stack_trace memory table fuel ebp m ≡ ok next)
      × (write m lines ≡ ok next)
      × IsValid next
unfolding IsStack write
show_stack_trace_lem memory table zero ebp eips m bytes stack enough names v = absurd (omega arith)
show_stack_trace_lem memory table (suc fuel) ebp [] m bytes stack enough names v =
    ([], m, refl, trace_end memory table fuel ebp m stack, refl, v)
show_stack_trace_lem memory table (suc fuel) ebp (eip ∷ eips) m bytes (ne, at, stack) enough
      (short, names) v =
    let found = backtrace_lookup memory table eip in
    let word = word_lt memory (ebp + 4) bytes in
    let (ds, one, digits, printed, wrote, valid) =
      frame_lem eip (name_text memory found) m v (omega arith)
        (name_nonzero memory found bytes, short) in
    let (lines, next, trace, run, rest, last) =
      show_stack_trace_lem memory table fuel (load32 memory ebp) eips one bytes stack (omega arith)
        names valid in
    let line = frame_line ds (name_text memory found) in
    (
      line ++ lines,
      next,
      (ds, lines, digits, refl, trace),
      trace_step memory table fuel ebp m one ne (rw at printed) ∙ run,
      write-append m one line lines wrote ∙ rest,
      last,
    )

text_plain : (is_plain trace_text ≡ true) × (is_plain double_panic ≡ true)
unfolding is_plain
text_plain = (refl, refl)

-- What a panic shows, with the cursor on the screen, memory that holds bytes, a stack whose frames
-- end and texts that fit the buffer of printk. If it is the first, it writes the function, the file,
-- the line and the message, and then the title of the trace and a line for each return address on the stack, its
-- digits in base 16 and the name that is found for it; after that the flag is set. If there
-- was a panic before, it writes only the text of a double panic. The cursor stays on the screen.
pub show_panic_lem :
    (memory : Bytes) (table : SymbolTable) (fuel ebp : ℕ) (eips : List ℕ) (site : Site)
    (msg : List ℕ) (c : Console)
    → ((b : ℕ) → memory b < 256)
    → IsStack memory ebp eips
    → length eips < fuel
    → HasShortNames memory table eips
    → IsText site msg
    → IsValid c.screen
    → (c' : Console) × (show_panic memory table fuel ebp site msg c ≡ ok c')
      × (c'.panicked_before ≡ true)
      × IsValid c'.screen
      × (c.panicked_before ≡ true → write c.screen double_panic ≡ ok c'.screen)
      × (c.panicked_before ≡ false
          → (ds : List ℕ) × (lines : List ℕ) × IsWritten 10 site.line ds
            × IsTrace memory table eips lines
            × (write c.screen (header_text site ds msg ++ (trace_text ++ lines)) ≡ ok c'.screen))
unfolding show_panic
show_panic_lem memory table fuel ebp eips site msg c bytes stack enough names fits v =
    elim (Bool-cases c.panicked_before) [
      | inl again ↦
          let (next, printed, wrote, valid) =
            printk_plain double_panic [] c.screen v (is_plain-IsPlain double_panic text_plain.1)
              (omega arith) in
          (
            record c { screen = next },
            rw (again, printed) refl,
            again,
            valid,
            (λ e. wrote),
            λ e. absurd (let both : true ≡ false = sym again ∙ e in cc),
          )
      | inr first ↦
          let (ds, headed, digits, printed, wrote, valid) = header_lem site msg c.screen v fits in
          let (titled, printed', wrote', valid') =
            printk_plain trace_text [] headed valid (is_plain-IsPlain trace_text text_plain.0)
              (omega arith) in
          let (lines, next, trace, run, rest, last) =
            show_stack_trace_lem memory table fuel ebp eips titled bytes stack enough names
              valid' in
          (
            record { screen = next; panicked_before = true },
            rw (first, printed, printed', run) refl,
            refl,
            last,
            (λ e. absurd (let both : true ≡ false = sym e ∙ first in cc)),
            λ e. (
              ds,
              lines,
              digits,
              trace,
              write-append c.screen headed (header_text site ds msg) (trace_text ++ lines) wrote
                  ∙ write-append headed titled trace_text lines wrote'
                  ∙ rest,
            ),
          )
    ]
