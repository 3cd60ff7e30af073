-- ===== src/Backtrace/Examples.antt =====
-- A table of two symbols, and a stack of two frames.
use evos.Base.{
  ℕ, zero, suc, ◌+◌, ◌-◌, ◌/◌, ◌%◌, ◌^◌, ◌<◌, ◌≡◌, ◌⊎◌, refl, none, some, List, [], ◌∷◌, u32, arith,
  get_or, ◌==◌, if◌then◌else◌,
}
use evos.Base.Memory.{Bytes, load32}
use evos.Backtrace.{SymbolTable, covers, lookup_from, backtrace_lookup}
use evos.Backtrace.Laws.{symbol, IsInside, backtrace_lookup_lem, IsStack}

-- An object at 0x100000 to 0x100400 and a function at 0x100400 to 0x100480, in the table at 0x1000.
abbrev words : List ℕ
words = 5 ∷ 0x100000 ∷ 0x400 ∷ 1 ∷ 9 ∷ 0x100400 ∷ 0x80 ∷ 2 ∷ []

-- Frames at 0x2000 and 0x2010.
abbrev frames : List ℕ
frames = 0x2010 ∷ 0x100410 ∷ 0 ∷ 0 ∷ 0 ∷ 0x100020 ∷ []

abbrev byte_of : List ℕ → ℕ → ℕ
byte_of ws o = get_or ws (o / 4) 0 / 256 ^ (o % 4) % 256

abbrev memory : Bytes
memory a =
    if a / 4096 == 1
    then byte_of words (a - 0x1000)
    else if a / 4096 == 2
    then byte_of frames (a - 0x2000)
    else 0

abbrev table : SymbolTable
table = record { symbols = 0x1000; strtab = 0x8000; num_symbols = 2 }

symbols_low :
    (j : ℕ) → j < 2 → (symbol memory table j).value + (symbol memory table j).size < 2 ^ 32
unfolding load32
symbols_low zero h = omega arith
symbols_low (suc zero) h = omega arith
symbols_low (suc (suc j)) h = absurd (omega arith)

backtrace_lookup_lem_example :
    ((backtrace_lookup memory table 0x100410 ≡ none)
      × ((k : ℕ) → k < 2 → ¬ IsInside (symbol memory table k) 0x100410))
    ⊎ ((k : ℕ) × (k < 2)
        × (backtrace_lookup memory table 0x100410
            ≡ some (u32 (0x8000 + (symbol memory table k).name)))
        × IsInside (symbol memory table k) 0x100410
        × ((e : ℕ) → e < k → ¬ IsInside (symbol memory table e) 0x100410))
backtrace_lookup_lem_example = backtrace_lookup_lem memory table 0x100410 symbols_low

lookup_run : backtrace_lookup memory table 0x100410 ≡ some 0x8009
unfolding backtrace_lookup lookup_from covers load32
lookup_run = refl

stack_lem : IsStack memory 0x2000 (0x100410 ∷ 0x100020 ∷ [])
unfolding IsStack load32
stack_lem = (ground arith, refl, (ground arith, refl, refl))
