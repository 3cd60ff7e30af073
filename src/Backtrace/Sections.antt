-- ===== src/Backtrace/Sections.antt =====
-- src/panic.c: the search for the symbols among the sections of the kernel's image. `memory` is
-- the memory that holds the sections, and that the names of the symbols are copied to.
pub mod Copy
pub mod Image
pub mod Laws
mod Examples
use evos.Base.{
  ℕ, zero, suc, ◌+◌, ◌*◌, ◌/◌, ◌^◌, ◌<◌, ◌≡◌, ◌&&◌, Bool, ◌==◌, leb, ltb, if◌then◌else◌, Option,
  List, [], ◌∷◌, Result, ok, ◌>>=◌, u32,
}
use evos.Base.Bits.{bit}
use evos.Base.Memory.{Bytes, load32}
use evos.Monitor.{Monitor}
use evos.Str.{strcmp}
use evos.Printk.{printk, report_success, report_fail}
use evos.Kmalloc.{Kernel, kmalloc}
use evos.Backtrace.{SymbolTable}

-- The fields of `multiboot_elf_section_header_t` that are used; a header has 40 bytes.
pub record Section : Type 0 where
  pub name : ℕ
  pub addr : ℕ
  pub size : ℕ

unfoldable pub section_at : Bytes → ℕ → Section
section_at memory a = record {
  name = load32 memory a;
  addr = load32 memory (a + 12);
  size = load32 memory (a + 20);
}

-- `flags` and `u.elf_sec` of `multiboot_info_t`.
pub record ElfInfo : Type 0 where
  pub flags : ℕ
  pub num : ℕ
  pub addr : ℕ
  pub shndx : ℕ

-- The bytes of a C string, `count` at most.
unfoldable pub chars_at : Bytes → ℕ → ℕ → List ℕ
chars_at memory zero a = []
chars_at memory (suc count) a = elim (memory a == 0) [
  | Bool.true ↦ []
  | Bool.false ↦ memory a ∷ chars_at memory count (u32 (a + 1))
]

-- ".strtab" and ".symtab"
abbrev pub strtab_name : List ℕ
strtab_name = 46 ∷ 115 ∷ 116 ∷ 114 ∷ 116 ∷ 97 ∷ 98 ∷ []

abbrev pub symtab_name : List ℕ
symtab_name = 46 ∷ 115 ∷ 121 ∷ 109 ∷ 116 ∷ 97 ∷ 98 ∷ []

-- "multiboot did not provide ELF info" and "Parsing multiboot ELF data"
abbrev pub no_elf_text : List ℕ
no_elf_text =
    109 ∷ 117 ∷ 108 ∷ 116 ∷ 105 ∷ 98 ∷ 111 ∷ 111 ∷ 116 ∷ 32 ∷ 100 ∷ 105 ∷ 100 ∷ 32 ∷ 110 ∷ 111 ∷ 116
    ∷ 32 ∷ 112 ∷ 114 ∷ 111 ∷ 118 ∷ 105 ∷ 100 ∷ 101 ∷ 32 ∷ 69 ∷ 76 ∷ 70 ∷ 32 ∷ 105 ∷ 110 ∷ 102 ∷ 111
    ∷ []

abbrev pub parsing_text : List ℕ
parsing_text =
    80 ∷ 97 ∷ 114 ∷ 115 ∷ 105 ∷ 110 ∷ 103 ∷ 32 ∷ 109 ∷ 117 ∷ 108 ∷ 116 ∷ 105 ∷ 98 ∷ 111 ∷ 111 ∷ 116
    ∷ 32 ∷ 69 ∷ 76 ∷ 70 ∷ 32 ∷ 100 ∷ 97 ∷ 116 ∷ 97 ∷ []

-- `memcpy(dest, src, num)` in memory, from the lowest byte on.
unfoldable pub copy_bytes : Bytes → ℕ → ℕ → ℕ → Bytes
copy_bytes memory dest src zero = memory
copy_bytes memory dest src (suc num) =
    copy_bytes (λ q. if q == dest then memory src else memory q) (u32 (dest + 1)) (u32 (src + 1))
      num

-- The state that the search changes: memory, the static variables and the allocator.
pub record Loaded (Pages : Type 0) : Type 0 where
  pub memory : Bytes
  pub table : SymbolTable
  pub strtab_length : ℕ
  pub kernel : Kernel Pages

-- The name of the section, as far as a comparison with a text of seven chars reads it.
abbrev pub section_name : Bytes → ℕ → Section → List ℕ
section_name memory shstrtab section = chars_at memory 8 (u32 (shstrtab + section.name))

module _ {Pages : Type 0} (map_page : ℕ → Bool → Bool → Pages → Result Pages)
    (page_address : Pages → ℕ → Option ℕ) where
  -- The first branch of the loop's body.
  unfoldable pub load_strtab : Section → Loaded Pages → Result (Loaded Pages)
  load_strtab section s = do
    (strtab, kernel) ← kmalloc map_page page_address (u32 (section.size + 8)) s.kernel
    ok (record s {
      memory = copy_bytes s.memory strtab section.addr section.size;
      table = record s.table { strtab = strtab };
      strtab_length = section.size;
      kernel = kernel;
    })

  -- The second branch.
  unfoldable pub load_symtab : Section → Loaded Pages → Loaded Pages
  load_symtab section s = record s {
    table = record s.table { symbols = section.addr; num_symbols = section.size / 16 };
  }

  -- The loop's body; a header and its name are read again after the copy.
  unfoldable pub load_section : ℕ → ℕ → Loaded Pages → Result (Loaded Pages)
  load_section shstrtab header s = do
    let section = section_at s.memory header
    s' ←
        if strcmp (section_name s.memory shstrtab section) strtab_name == 0
        then load_strtab section s
        else ok s
    let section' = section_at s'.memory header
    ok (
        if strcmp (chars_at s'.memory 8 (u32 (shstrtab + section.name))) symtab_name == 0
        then load_symtab section' s'
        else s')

  -- The loop, with a number of rounds left.
  unfoldable pub load_sections : ElfInfo → ℕ → ℕ → ℕ → Loaded Pages → Result (Loaded Pages)
  load_sections info shstrtab zero i s = ok s
  load_sections info shstrtab (suc rounds) i s = do
    s' ← load_section shstrtab (u32 (info.addr + 40 * i)) s
    load_sections info shstrtab rounds (i + 1) s'

  unfoldable pub init_panic_backtrace :
      ElfInfo → Loaded Pages × Monitor → Result (Loaded Pages × Monitor)
  init_panic_backtrace info (s, m) =
      if bit info.flags 5 == 0
      then (do
        (written, shown) ← printk no_elf_text [] m
        reported ← report_fail shown
        ok (s, reported))
      else (do
        (written, shown) ← printk parsing_text [] m
        let shstrtab = (section_at s.memory (u32 (info.addr + 40 * info.shndx))).addr
        s' ← load_sections info shstrtab info.num 0 s
        reported ← report_success shown
        ok (s', reported))
