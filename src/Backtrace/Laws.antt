-- ===== src/Backtrace/Laws.antt =====
-- The function that is found for an address, and the frames of a stack.
use evos.Base.{
  ℕ, zero, suc, ◌+◌, ◌*◌, ◌%◌, ◌^◌, ◌≤◌, ◌<◌, ◌≡◌, ◌≢◌, refl, ◌∙◌, ◌⊎◌, inl, inr, true, false, none,
  some, List, [], ◌∷◌, ok, ◌>>=◌, u32, arith, map, length, Bool-cases,
}
use evos.Base.Memory.{Bytes, load32}
use evos.Backtrace.{
  ElfSymbol, symbol_at, SymbolTable, covers, lookup_from, backtrace_lookup, print_stack_trace,
}

-- The symbol `i` of the table.
abbrev pub symbol : Bytes → SymbolTable → ℕ → ElfSymbol
symbol memory table i = symbol_at memory (table.symbols + 16 * i)

-- A function whose code, from its value on, has the address; the code ends below 2 ^ 32.
abbrev pub IsInside : ElfSymbol → ℕ → Type 0
IsInside s addr = (s.info % 16 ≡ 2) × (s.value ≤ addr) × (addr < s.value + s.size)

covers_iff :
    (s : ElfSymbol) (addr : ℕ)
    → s.value + s.size < 2 ^ 32
    → (covers s addr ≡ true → IsInside s addr) × (covers s addr ≡ false → ¬ IsInside s addr)
unfolding covers
covers_iff s addr low = (λ e. (ground arith, ground arith, ground arith), λ e inside. ground arith)

later :
    (memory : Bytes) (table : SymbolTable) (addr n i : ℕ)
    → ¬ IsInside (symbol memory table i) addr
    → ((k : ℕ) → k < n → ¬ IsInside (symbol memory table (i + 1 + k)) addr)
    → (k : ℕ) → k < suc n
    → ¬ IsInside (symbol memory table (i + k)) addr
later memory table addr n i first rest zero h = let here : i + 0 ≡ i = omega arith in rw here first
later memory table addr n i first rest (suc k) h =
    let next : i + suc k ≡ i + 1 + k = omega arith in rw next (rest k (omega arith))

lookup_from_lem :
    (memory : Bytes) (table : SymbolTable) (addr rounds i : ℕ)
    → ((j : ℕ)
        → j < i + rounds
        → (symbol memory table j).value + (symbol memory table j).size < 2 ^ 32)
    → ((lookup_from memory table addr rounds i ≡ none)
        × ((k : ℕ) → k < rounds → ¬ IsInside (symbol memory table (i + k)) addr))
      ⊎ ((k : ℕ) × (k < rounds)
          × (lookup_from memory table addr rounds i
              ≡ some (u32 (table.strtab + (symbol memory table (i + k)).name)))
          × IsInside (symbol memory table (i + k)) addr
          × ((e : ℕ) → e < k → ¬ IsInside (symbol memory table (i + e)) addr))
unfolding lookup_from
lookup_from_lem memory table addr zero i low = inl (refl, λ k h. absurd (omega arith))
lookup_from_lem memory table addr (suc rounds) i low =
    let tested = covers_iff (symbol memory table i) addr (low i (omega arith)) in
    let here : i + 0 ≡ i = omega arith in
    elim (Bool-cases (covers (symbol memory table i) addr)) [
      | inl e ↦
          rw e
            (inr (0, omega arith, rw here refl, rw here (tested.0 e), λ k h. absurd (omega arith)))
      | inr e ↦
          rw e
            (elim (lookup_from_lem memory table addr rounds (i + 1) (λ j h. low j (omega arith))) [
              | inl (gone, missed) ↦
                  inl (gone, λ k h. later memory table addr rounds i (tested.1 e) missed k h)
              | inr (k, near, found, inside, before) ↦
                  let next : i + (k + 1) ≡ i + 1 + k = omega arith in
                  inr (
                    k + 1,
                    omega arith,
                    rw next found,
                    rw next inside,
                    λ j h. later memory table addr k i (tested.1 e) before j (omega arith),
                  )
            ])
    ]

-- When all symbols end below 2 ^ 32, backtrace_lookup gives the name of the first of them that is a
-- function and covers the address, and "(null)" when there is none.
pub backtrace_lookup_lem :
    (memory : Bytes) (table : SymbolTable) (addr : ℕ)
    → ((j : ℕ)
        → j < table.num_symbols
        → (symbol memory table j).value + (symbol memory table j).size < 2 ^ 32)
    → ((backtrace_lookup memory table addr ≡ none)
        × ((k : ℕ) → k < table.num_symbols → ¬ IsInside (symbol memory table k) addr))
      ⊎ ((k : ℕ) × (k < table.num_symbols)
          × (backtrace_lookup memory table addr
              ≡ some (u32 (table.strtab + (symbol memory table k).name)))
          × IsInside (symbol memory table k) addr
          × ((e : ℕ) → e < k → ¬ IsInside (symbol memory table e) addr))
unfolding backtrace_lookup
backtrace_lookup_lem memory table addr low =
    elim (lookup_from_lem memory table addr table.num_symbols 0 (λ j h. low j (omega arith))) [
      | inl (gone, missed) ↦
          inl (gone, λ k h. let at : 0 + k ≡ k = omega arith in rw at at (missed k h))
      | inr (k, near, found, inside, before) ↦
          let at : 0 + k ≡ k = omega arith in
          inr (
            k,
            near,
            rw at at found,
            rw at at inside,
            λ e h. let at' : 0 + e ≡ e = omega arith in rw at' at (before e h),
          )
    ]

-- The frames from `ebp` on have the return addresses `eips`, and the last frame pointer is zero.
unfoldable pub IsStack : Bytes → ℕ → List ℕ → Type 0
IsStack memory ebp [] = ebp ≡ 0
IsStack memory ebp (eip ∷ eips) =
    (ebp ≢ 0) × (load32 memory (ebp + 4) ≡ eip) × IsStack memory (load32 memory ebp) eips

stack_end :
    (memory : Bytes) (table : SymbolTable) (fuel ebp : ℕ)
    → ebp ≡ 0
    → print_stack_trace memory table (suc fuel) ebp ≡ ok []
unfolding print_stack_trace
stack_end memory table fuel ebp z = ground arith

stack_step :
    (memory : Bytes) (table : SymbolTable) (fuel ebp : ℕ)
    → ebp ≢ 0
    → print_stack_trace memory table (suc fuel) ebp ≡ (
        print_stack_trace memory table fuel (load32 memory ebp) >>= λ rest.
        ok (
          (load32 memory (ebp + 4), backtrace_lookup memory table (load32 memory (ebp + 4)))
          ∷ rest))
unfolding print_stack_trace
stack_step memory table fuel ebp ne = ground arith

-- For a stack whose chain of frame pointers ends, the walk finishes after as many rounds as there
-- are frames and one more, and has one line for each return address, with the name that is found for it.
pub print_stack_trace_lem :
    (memory : Bytes) (table : SymbolTable) (ebp : ℕ) (eips : List ℕ) (fuel : ℕ)
    → IsStack memory ebp eips
    → length eips < fuel
    → print_stack_trace memory table fuel ebp
      ≡ ok (map (λ eip. (eip, backtrace_lookup memory table eip)) eips)
unfolding print_stack_trace IsStack
print_stack_trace_lem memory table ebp eips zero stack enough = absurd (omega arith)
print_stack_trace_lem memory table ebp [] (suc fuel) stack enough =
    stack_end memory table fuel ebp stack
print_stack_trace_lem memory table ebp (eip ∷ eips) (suc fuel) (ne, at, stack) enough =
    stack_step memory table fuel ebp ne
    ∙ rw (at, print_stack_trace_lem memory table (load32 memory ebp) eips fuel stack (omega arith))
        refl
