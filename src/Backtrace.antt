-- ===== src/Backtrace.antt =====
-- src/panic.c: the lookup of a function by its address, and the walk over the stack. `memory` is
-- the memory that holds the symbols and the stack; a name is its address in the string table.
pub mod Laws
pub mod Sections
mod Examples
use evos.Base.{
  ℕ, zero, suc, ◌+◌, ◌*◌, ◌%◌, ◌^◌, Bool, not, ◌&&◌, ◌==◌, leb, ltb, if◌then◌else◌, Option, none,
  some, List, [], ◌∷◌, Result, ok, fault, ◌>>=◌, u32,
}
use evos.Base.Memory.{Bytes, load32}

pub record ElfSymbol : Type 0 where
  pub name : ℕ
  pub value : ℕ
  pub size : ℕ
  pub info : ℕ
  pub other : ℕ
  pub shndx : ℕ

-- `ELF_SYMBOL_TYPE` and `ELF_SYMBOL_FUNCTION`
abbrev pub elf_symbol_type : ℕ → ℕ
elf_symbol_type info = info % 16

abbrev pub elf_symbol_function : ℕ
elf_symbol_function = 2

-- A symbol has 16 bytes.
abbrev pub symbol_at : Bytes → ℕ → ElfSymbol
symbol_at memory a = record {
  name = load32 memory a;
  value = load32 memory (a + 4);
  size = load32 memory (a + 8);
  info = memory (a + 12);
  other = memory (a + 13);
  shndx = memory (a + 14) + 256 * memory (a + 15);
}

-- The static variables.
pub record SymbolTable : Type 0 where
  pub symbols : ℕ
  pub strtab : ℕ
  pub num_symbols : ℕ

-- Whether the loop returns at a symbol.
unfoldable pub covers : ElfSymbol → ℕ → Bool
covers symbol addr =
    let sym_start = symbol.value in
    let sym_end = u32 (sym_start + symbol.size) in
    if not (elf_symbol_type symbol.info == elf_symbol_function)
    then Bool.false
    else leb sym_start addr && ltb addr sym_end

-- The loop, with a number of rounds left; `none` stands for "(null)".
unfoldable pub lookup_from : Bytes → SymbolTable → ℕ → ℕ → ℕ → Option ℕ
lookup_from memory table addr zero i = none
lookup_from memory table addr (suc rounds) i =
    let symbol = symbol_at memory (table.symbols + 16 * i) in
    let rest = lookup_from memory table addr rounds (i + 1) in
    if covers symbol addr then some (u32 (table.strtab + symbol.name)) else rest

unfoldable pub backtrace_lookup : Bytes → SymbolTable → ℕ → Option ℕ
backtrace_lookup memory table addr = lookup_from memory table addr table.num_symbols 0

-- The lines of `print_stack_trace` from the frame pointer `ebp` on, each a return address and the
-- name that is found for it. The loop has no bound, and runs on fuel.
unfoldable pub print_stack_trace : Bytes → SymbolTable → ℕ → ℕ → Result (List (ℕ × Option ℕ))
print_stack_trace memory table zero ebp = fault
print_stack_trace memory table (suc fuel) ebp = elim (ebp == 0) [
  | Bool.true ↦ ok []
  | Bool.false ↦ do
    let eip = load32 memory (ebp + 4)
    rest ← print_stack_trace memory table fuel (load32 memory ebp)
    ok ((eip, backtrace_lookup memory table eip) ∷ rest)
]
