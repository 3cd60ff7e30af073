-- ===== src/Backtrace/Sections/Examples.antt =====
-- Three sections: the names of the symbols, the symbols, and the names of the sections.
use evos.Base.{
  ℕ, zero, suc, ◌+◌, ◌-◌, ◌/◌, ◌%◌, ◌^◌, ◌<◌, ◌≡◌, ◌≢◌, inl, refl, ap, Bool, ◌==◌, if◌then◌else◌,
  Option, none, List, [], ◌∷◌, ◌++◌, Result, ok, u32, arith, get_or, replicate, length-replicate,
}
use evos.Base.Memory.{Bytes, load32}
use evos.Monitor.{Monitor, blank}
use evos.Monitor.Laws.{IsValid}
use evos.Kmalloc.{Kernel}
use evos.Backtrace.Sections.{
  section_at, ElfInfo, chars_at, strtab_name, symtab_name, Loaded, init_panic_backtrace,
}
use evos.Backtrace.Sections.Copy.{IsApart}
use evos.Backtrace.Sections.Image.{section, name_of, IsImage}
use evos.Backtrace.Sections.Laws.{init_panic_backtrace_lem}

-- Name, type, flags, address, offset, size and four words more for each section.
abbrev header_words : List ℕ
header_words =
    1 ∷ 3 ∷ 0 ∷ 0x5000 ∷ 0 ∷ 16 ∷ 0 ∷ 0 ∷ 0 ∷ 0 ∷ 9 ∷ 2 ∷ 0 ∷ 0x6000 ∷ 0 ∷ 32 ∷ 0 ∷ 0 ∷ 0 ∷ 16 ∷ 17
    ∷ 3 ∷ 0 ∷ 0x4000 ∷ 0 ∷ 27 ∷ 0 ∷ 0 ∷ 0 ∷ 0 ∷ []

-- The names of the sections, the last one ".shstrtab", each with a zero.
abbrev name_bytes : List ℕ
name_bytes =
    0
    ∷ (strtab_name
        ++ 0 ∷ (symtab_name ++ 0 ∷ 46 ∷ 115 ∷ 104 ∷ 115 ∷ 116 ∷ 114 ∷ 116 ∷ 97 ∷ 98 ∷ 0 ∷ []))

abbrev image : Bytes
image a =
    if a / 4096 == 3
    then get_or header_words ((a - 0x3000) / 4) 0 / 256 ^ ((a - 0x3000) % 4) % 256
    else if a / 4096 == 4
    then get_or name_bytes (a - 0x4000) 0 % 256
    else 65

abbrev info : ElfInfo
info = record { flags = 32; num = 3; addr = 0x3000; shndx = 2 }

sections :
    (section info image 0 ≡ record { name = 1; addr = 0x5000; size = 16 })
    × (section info image 1 ≡ record { name = 9; addr = 0x6000; size = 32 })
    × (section info image 2 ≡ record { name = 17; addr = 0x4000; size = 27 })
unfolding section_at load32
sections = (refl, refl, refl)

first_name : name_of info image 0 ≡ strtab_name
unfolding section_at load32 chars_at
first_name = refl

second_name : name_of info image 1 ≡ symtab_name
unfolding section_at load32 chars_at
second_name = refl

-- ".shstrta"
abbrev third : List ℕ
third = 46 ∷ 115 ∷ 104 ∷ 115 ∷ 116 ∷ 114 ∷ 116 ∷ 97 ∷ []

third_name : name_of info image 2 ≡ third
unfolding section_at load32 chars_at
third_name = refl

differs : (a b : List ℕ) (i : ℕ) → get_or a i 0 ≢ get_or b i 0 → a ≢ b
differs a b i ne e = ne (ap (λ (t : List ℕ). get_or t i 0) e)

image-IsImage : IsImage info image 0x10000 0 1
unfolding section_at load32
image-IsImage = record {
  bytes = λ a. ground arith;
  has_strtab = omega arith;
  has_symtab = omega arith;
  strtab = first_name;
  symtab = second_name;
  one_strtab = not_strtab;
  one_symtab = not_symtab;
  copyable = (omega arith, omega arith, inl (omega arith));
  room = omega arith;
  headers = λ i k inside near. inl (omega arith);
  unchanged = near_names;
}
  where
    not_strtab : (i : ℕ) → i < 3 → i ≢ 0 → name_of info image i ≢ strtab_name
    not_strtab zero h ne = absurd (ne refl)
    not_strtab (suc zero) h ne =
        rw second_name (differs symtab_name strtab_name 2 (λ e. omega arith))
    not_strtab (suc (suc zero)) h ne =
        rw third_name (differs third strtab_name 2 (λ e. omega arith))
    not_strtab (suc (suc (suc i))) h ne = absurd (omega arith)

    not_symtab : (i : ℕ) → i < 3 → i ≢ 1 → name_of info image i ≢ symtab_name
    not_symtab zero h ne = rw first_name (differs strtab_name symtab_name 2 (λ e. omega arith))
    not_symtab (suc zero) h ne = absurd (ne refl)
    not_symtab (suc (suc zero)) h ne =
        rw third_name (differs third symtab_name 2 (λ e. omega arith))
    not_symtab (suc (suc (suc i))) h ne = absurd (omega arith)

    near_names :
        (i k : ℕ)
        → i < 3
        → k < 8
        → IsApart 0x10000 16 (u32 ((section info image 2).addr + (section info image i).name + k))
    near_names zero k h near = inl (omega arith)
    near_names (suc zero) k h near = inl (omega arith)
    near_names (suc (suc zero)) k h near = inl (omega arith)
    near_names (suc (suc (suc i))) k h near = absurd (omega arith)

abbrev no_pages : ℕ → Bool → Bool → Unit {0} → Result (Unit {0})
no_pages addr kernel_mode writeable p = ok p

abbrev no_address : Unit {0} → ℕ → Option ℕ
no_address p address = none

abbrev before : Kernel (Unit {0})
before = record { kernel_heap = none; mem_first_unused = 0x10000 }

abbrev unloaded : Loaded (Unit {0})
unloaded = record {
  memory = image;
  table = record { symbols = 0; strtab = 0; num_symbols = 0 };
  strtab_length = 0;
  kernel = before;
}

abbrev screen : Monitor
screen = record { video_buffer = replicate 2000 blank; cur_x = 0; cur_y = 3; outs = [] }

screen-IsValid : IsValid screen
unfolding IsValid
screen-IsValid = (length-replicate 2000 blank, omega arith, omega arith)

init_panic_backtrace_lem_example :
    (s' : Loaded (Unit {0})) × (screen' : Monitor) × (init_panic_backtrace no_pages no_address info
        (unloaded, screen)
      ≡ ok (s', screen'))
    × IsValid screen'
    × (s'.table ≡ record {
      symbols = (section info image 1).addr;
      strtab = 0x10000;
      num_symbols = (section info image 1).size / 16;
    })
    × (s'.strtab_length ≡ (section info image 0).size)
    × (s'.kernel ≡ record before { mem_first_unused = 0x10000 + (section info image 0).size + 8 })
    × ((j : ℕ)
        → j < (section info image 0).size
        → s'.memory (0x10000 + j) ≡ image ((section info image 0).addr + j))
    × ((a : ℕ) → IsApart 0x10000 (section info image 0).size a → s'.memory a ≡ image a)
init_panic_backtrace_lem_example =
    init_panic_backtrace_lem info image no_pages no_address before 0 1 image-IsImage refl unloaded
      screen refl refl screen-IsValid (λ e. omega arith)
