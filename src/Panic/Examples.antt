-- ===== src/Panic/Examples.antt =====
-- A panic with one function on the stack.
use evos.Base.{
  ℕ, ◌-◌, ◌/◌, ◌%◌, ◌^◌, ◌≡◌, refl, Bool, true, false, List, [], ◌∷◌, ◌++◌, ok, arith, get_or,
  replicate, length-replicate, ◌==◌, if◌then◌else◌,
}
use evos.Base.Memory.{Bytes, load32}
use evos.Monitor.{blank, write}
use evos.Monitor.Laws.{IsValid}
use evos.Str.Vsprintf.Fields.{IsWritten}
use evos.Backtrace.{SymbolTable, backtrace_lookup, lookup_from, covers}
use evos.Backtrace.Laws.{IsStack}
use evos.Backtrace.Sections.{chars_at}
use evos.Panic.{Console, Site, double_panic, trace_text, name_text, show_panic}
use evos.Panic.Lines.{header_text}
use evos.Panic.Laws.{IsTrace, HasShortNames, show_panic_lem}

-- At 0x1000 a function at 0x100400 to 0x100480; at 0x2000 a frame; at 0x8009 the name "fn".
abbrev memory : Bytes
memory a =
    if a / 4096 == 1
    then get_or (9 ∷ 0x100400 ∷ 0x80 ∷ 2 ∷ []) ((a - 0x1000) / 4) 0 / 256 ^ (a % 4) % 256
    else if a / 4096 == 2
    then get_or (0 ∷ 0x100410 ∷ []) ((a - 0x2000) / 4) 0 / 256 ^ (a % 4) % 256
    else if a == 0x8009
    then 102
    else if a == 0x800A
    then 110
    else 0

abbrev table : SymbolTable
table = record { symbols = 0x1000; strtab = 0x8000; num_symbols = 1 }

found : name_text memory (backtrace_lookup memory table 0x100410) ≡ 102 ∷ 110 ∷ []
unfolding backtrace_lookup lookup_from covers load32 chars_at
found = refl

found_short : HasShortNames memory table (0x100410 ∷ [])
found_short = (rw found (omega arith), tt)

frame : IsStack memory 0x2000 (0x100410 ∷ [])
unfolding IsStack load32
frame = (ground arith, refl, refl)

-- "a.c", "f" and "no"
abbrev site : Site
site = record { file = 97 ∷ 46 ∷ 99 ∷ []; func = 102 ∷ []; line = 12 }

abbrev console : Console
console = record {
  screen = record { video_buffer = replicate 2000 blank; cur_x = 0; cur_y = 3; outs = [] };
  panicked_before = false;
}

console-IsValid : IsValid console.screen
unfolding IsValid
console-IsValid = (length-replicate 2000 blank, omega arith, omega arith)

show_panic_lem_example :
    (c' : Console) × (show_panic memory table 2 0x2000 site (110 ∷ 111 ∷ []) console ≡ ok c')
    × (c'.panicked_before ≡ true)
    × IsValid c'.screen
    × (◌≡◌ {A = Bool} false true → write console.screen double_panic ≡ ok c'.screen)
    × (◌≡◌ {A = Bool} false false
        → (ds : List ℕ) × (lines : List ℕ) × IsWritten 10 12 ds
          × IsTrace memory table (0x100410 ∷ []) lines
          × (write console.screen (header_text site ds (110 ∷ 111 ∷ []) ++ (trace_text ++ lines))
              ≡ ok c'.screen))
show_panic_lem_example =
    show_panic_lem memory table 2 0x2000 (0x100410 ∷ []) site (110 ∷ 111 ∷ []) console
      (λ b. ground arith) frame (omega arith) found_short
      (ground arith, ground arith, ground arith, omega arith, omega arith) console-IsValid
