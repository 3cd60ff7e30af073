-- ===== src/Backtrace/Sections/Laws.antt =====
-- What the search leaves when the image has one string table and one table of symbols.
use evos.Base.{
  ℕ, zero, suc, ◌+◌, ◌/◌, ◌≤◌, ◌<◌, ◌≡◌, ◌≢◌, refl, sym, ap, ◌∙◌, Bool, true, false, ◌==◌,
  if◌then◌else◌, Option, none, [], ◌∷◌, Result, ok, u32, arith, ℕ_discrete, dec_lt,
}
use evos.Base.Bits.{bit}
use evos.Base.Memory.{Bytes}
use evos.Monitor.{Monitor}
use evos.Monitor.Laws.{IsValid, write_status-IsValid}
use evos.Printk.Plain.{is_plain, is_plain-IsPlain, printk_plain}
use evos.Timer.Laws.{report_success-IsValid}
use evos.Str.{strcmp}
use evos.Printk.{report_fail}
use evos.Kmalloc.{Kernel, kmalloc, kmalloc_aligned, linear_kmalloc}
use evos.Backtrace.Sections.{
  section_at, ElfInfo, strtab_name, symtab_name, no_elf_text, parsing_text, copy_bytes, Loaded,
  load_strtab, load_symtab, load_section, load_sections, init_panic_backtrace,
}
use evos.Backtrace.Sections.Copy.{IsApart, copy_bytes_outside, copy_bytes_inside}
use evos.Backtrace.Sections.Image.{
  header_address, section, names, name_of, IsImage, Agrees, same_section, same_name, p-ne-q,
  first_test, second_test,
}

parsing_plain : is_plain parsing_text ≡ true
unfolding is_plain
parsing_plain = refl

module _ (info : ElfInfo) (m : Bytes) {Pages : Type 0}
    (map_page : ℕ → Bool → Bool → Pages → Result Pages) (page_address : Pages → ℕ → Option ℕ)
    (k : Kernel Pages) (p q : ℕ) (image : IsImage info m k.mem_first_unused p q)
    (early : k.kernel_heap ≡ none) where
  copied : Bytes
  copied = copy_bytes m k.mem_first_unused (section info m p).addr (section info m p).size

  -- The state before the round `i`.
  abbrev IsAt : ℕ → Loaded Pages → Type 0
  IsAt i s =
      (i ≤ p → (s.memory ≡ m) × (s.kernel ≡ k))
      × (p < i
          → (s.memory ≡ copied)
            × (s.kernel
                ≡ record k { mem_first_unused = k.mem_first_unused + (section info m p).size + 8 })
            × (s.table.strtab ≡ k.mem_first_unused)
            × (s.strtab_length ≡ (section info m p).size))
      × (q < i
          → (s.table.symbols ≡ (section info m q).addr)
            × (s.table.num_symbols ≡ (section info m q).size / 16))

  copied-Agrees : Agrees info m k.mem_first_unused p q image copied
  unfolding copied Agrees
  copied-Agrees a apart =
      copy_bytes_outside m k.mem_first_unused (section info m p).addr (section info m p).size a
        image.copyable.0 apart

  at-Agrees :
      (i : ℕ) (s : Loaded Pages) → IsAt i s → Agrees info m k.mem_first_unused p q image s.memory
  unfolding Agrees
  at-Agrees i s (before, after, found) a apart = elim (dec_lt p i) [
    | yes past ↦ ap (λ (x : Bytes). x a) (after past).0 ∙ copied-Agrees a apart
    | no here ↦ ap (λ (x : Bytes). x a) (before (omega arith)).0
  ]

  round_lem :
      (i : ℕ) (s s' : Loaded Pages) (b b' : Bool)
      → i < info.num
      → Agrees info m k.mem_first_unused p q image s.memory
      → (strcmp (name_of info m i) strtab_name == 0) ≡ b
      → (strcmp (name_of info m i) symtab_name == 0) ≡ b'
      → (if b then load_strtab map_page page_address (section info m i) s else ok s) ≡ ok s'
      → Agrees info m k.mem_first_unused p q image s'.memory
      → load_section map_page page_address (names info m) (header_address info m i) s
        ≡ ok (if b' then load_symtab map_page page_address (section info m i) s' else s')
  unfolding load_section
  round_lem i s s' b b' inside agrees first second loads agrees' =
      rw
        (
          same_section info m k.mem_first_unused p q image s.memory i agrees inside,
          same_name info m k.mem_first_unused p q image s.memory i agrees inside,
          first,
          loads,
          same_section info m k.mem_first_unused p q image s'.memory i agrees' inside,
          same_name info m k.mem_first_unused p q image s'.memory i agrees' inside,
          second,
        )
        refl

  -- The state behind the copy.
  with_strtab : Loaded Pages → Loaded Pages
  with_strtab s = record {
    memory = copied;
    table = record s.table { strtab = k.mem_first_unused };
    strtab_length = (section info m p).size;
    kernel = record k { mem_first_unused = k.mem_first_unused + (section info m p).size + 8 };
  }

  loads_strtab :
      (s : Loaded Pages)
      → s.memory ≡ m
      → s.kernel ≡ k
      → load_strtab map_page page_address (section info m p) s ≡ ok (with_strtab s)
  unfolding load_strtab kmalloc kmalloc_aligned linear_kmalloc with_strtab copied
  loads_strtab s here there =
      let low : u32 ((section info m p).size + 8) ≡ (section info m p).size + 8 =
        omega (arith, image.room) in
      let next : u32 (k.mem_first_unused + ((section info m p).size + 8))
          ≡ k.mem_first_unused + (section info m p).size + 8 =
        omega (arith, image.room) in
      rw (here, there, early, low, next) refl

  -- One round of the loop.
  load_section-IsAt :
      (i : ℕ) (s : Loaded Pages)
      → i < info.num
      → IsAt i s
      → (s' : Loaded Pages) × (load_section map_page page_address
            (names info m)
            (header_address info m i)
            s
          ≡ ok s')
        × IsAt (i + 1) s'
  unfolding with_strtab load_symtab
  load_section-IsAt i s inside at =
      let agrees = at-Agrees i s at in
      let (before, after, found) = at in
      elim (ℕ_discrete i p) [
        | yes e ↦
            let yes_first : (i == p) ≡ true = ground arith in
            let no_second : (i == q) ≡ false =
              let ne = p-ne-q info m k.mem_first_unused p q image in ground arith in
            let state = before (omega arith) in
            let loads : load_strtab map_page page_address (section info m i) s
                ≡ ok (with_strtab s) =
              rw e (loads_strtab s state.0 state.1) in
            (
              with_strtab s,
              round_lem i s (with_strtab s) true false inside agrees
                  (first_test info m k.mem_first_unused p q image i inside ∙ yes_first)
                  (second_test info m k.mem_first_unused p q image i inside ∙ no_second) loads
                  copied-Agrees,
              (
                (λ h. absurd (omega arith)),
                (λ h. (refl, refl, refl, refl)),
                λ h. found (let ne = p-ne-q info m k.mem_first_unused p q image in omega arith),
              ),
            )
        | no ne ↦
            let no_first : (i == p) ≡ false = ground arith in
            elim (ℕ_discrete i q) [
              | yes e ↦
                  let yes_second : (i == q) ≡ true = ground arith in
                  (
                    load_symtab map_page page_address (section info m i) s,
                    round_lem i s s false true inside agrees
                        (first_test info m k.mem_first_unused p q image i inside ∙ no_first)
                        (second_test info m k.mem_first_unused p q image i inside ∙ yes_second) refl
                        agrees,
                    (
                      (λ h. before (omega arith)),
                      (λ h. after (omega arith)),
                      λ h. rw e (refl, refl),
                    ),
                  )
              | no ne' ↦
                  let no_second : (i == q) ≡ false = ground arith in
                  (
                    s,
                    round_lem i s s false false inside agrees
                        (first_test info m k.mem_first_unused p q image i inside ∙ no_first)
                        (second_test info m k.mem_first_unused p q image i inside ∙ no_second) refl
                        agrees,
                    (
                      (λ h. before (omega arith)),
                      (λ h. after (omega arith)),
                      λ h. found (omega arith),
                    ),
                  )
            ]
      ]

  load_sections-IsAt :
      (rounds i : ℕ) (s : Loaded Pages)
      → i + rounds ≡ info.num
      → IsAt i s
      → (s' : Loaded Pages) × (load_sections map_page page_address info (names info m) rounds i s
          ≡ ok s')
        × IsAt info.num s'
  unfolding load_sections
  load_sections-IsAt zero i s e at =
      let last : i ≡ info.num = omega arith in (s, refl, rw last at at)
  load_sections-IsAt (suc rounds) i s e at =
      let (next, run, there) = load_section-IsAt i s (omega arith) at in
      let (s', rest, end) = load_sections-IsAt rounds (i + 1) next (omega arith) there in
      (s', rw run rest, end)

  -- What init_panic_backtrace leaves, given a boot loader that describes the sections of such an
  -- image, before the heap exists and with the cursor on the screen: it succeeds, and the
  -- cursor stays on the screen; the symbols are those of the image's table, 16 bytes each; the
  -- string table has been copied to the first unused byte of memory, where its first
  -- `size` bytes stand, and this memory and eight bytes more are in use; no other byte changes.
  pub init_panic_backtrace_lem :
      (s : Loaded Pages) (screen : Monitor)
      → s.memory ≡ m
      → s.kernel ≡ k
      → IsValid screen
      → bit info.flags 5 ≢ 0
      → (s' : Loaded Pages) × (screen' : Monitor) × (init_panic_backtrace map_page page_address info
            (s, screen)
          ≡ ok (s', screen'))
        × IsValid screen'
        × (s'.table ≡ record {
          symbols = (section info m q).addr;
          strtab = k.mem_first_unused;
          num_symbols = (section info m q).size / 16;
        })
        × (s'.strtab_length ≡ (section info m p).size)
        × (s'.kernel
            ≡ record k { mem_first_unused = k.mem_first_unused + (section info m p).size + 8 })
        × ((j : ℕ)
            → j < (section info m p).size
            → s'.memory (k.mem_first_unused + j) ≡ m ((section info m p).addr + j))
        × ((a : ℕ) → IsApart k.mem_first_unused (section info m p).size a → s'.memory a ≡ m a)
  unfolding init_panic_backtrace copied Agrees
  init_panic_backtrace_lem s screen here there v flag =
      let (shown, printed, wrote, valid) =
        printk_plain parsing_text [] screen v (is_plain-IsPlain parsing_text parsing_plain)
          (omega arith) in
      let at : (section_at s.memory (header_address info m info.shndx)).addr ≡ names info m =
        ap (λ (x : Bytes). (section_at x (header_address info m info.shndx)).addr) here in
      let (screen', reported, last) = report_success-IsValid shown valid in
      let start : IsAt 0 s =
        ((λ h. (here, there)), (λ h. absurd (omega arith)), λ h. absurd (omega arith)) in
      let (s', run, (before, after, found)) = load_sections-IsAt info.num 0 s (omega arith) start in
      let (memory, kernel, strtab, strtab_length) = after image.has_strtab in
      let (symbols, num) = found image.has_symtab in
      let set : (bit info.flags 5 == 0) ≡ false = ground arith in
      (
        s',
        screen',
        rw (set, printed, at, run, reported) refl,
        last,
        rw (sym symbols, sym strtab, sym num) refl,
        strtab_length,
        kernel,
        λ j h.
            ap (λ (x : Bytes). x (k.mem_first_unused + j)) memory
            ∙ copy_bytes_inside m k.mem_first_unused (section info m p).addr (section info m p).size
                j image.copyable h,
        λ a apart. ap (λ (x : Bytes). x a) memory ∙ copied-Agrees a apart,
      )

-- Without the sections' flag init_panic_backtrace changes nothing but the screen.
no_sections :
    {Pages : Type 0} (map_page : ℕ → Bool → Bool → Pages → Result Pages)
    (page_address : Pages → ℕ → Option ℕ) (info : ElfInfo) (s : Loaded Pages) (screen : Monitor)
    → IsValid screen
    → bit info.flags 5 ≡ 0
    → (screen' : Monitor) × (init_panic_backtrace map_page page_address info (s, screen)
        ≡ ok (s, screen'))
      × IsValid screen'
unfolding init_panic_backtrace report_fail is_plain
no_sections map_page page_address info s screen v flag =
    let (shown, printed, wrote, valid) =
      printk_plain no_elf_text [] screen v (is_plain-IsPlain no_elf_text refl) (omega arith) in
    let (screen', reported, last) =
      write_status-IsValid shown (70 ∷ 65 ∷ 73 ∷ 76 ∷ []) false valid (omega arith) in
    let unset : (bit info.flags 5 == 0) ≡ true = ground arith in
    (screen', rw (unset, printed, reported) refl, last)
