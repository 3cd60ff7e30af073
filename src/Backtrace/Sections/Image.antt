-- ===== src/Backtrace/Sections/Image.antt =====
-- An image with one string table and one table of symbols, and what is read of it.
use evos.Base.{
  ℕ, ◌+◌, ◌-◌, ◌*◌, ◌^◌, ◌≤◌, ◌<◌, ◌≡◌, ◌≢◌, refl, sym, ap, ◌∙◌, true, false, ◌==◌, List, All, u32,
  arith, get_or, ℕ_discrete,
}
use evos.Base.Memory.{Bytes, load32, load32_ext}
use evos.Str.{strcmp}
use evos.Str.Laws.{IsByte}
use evos.Backtrace.Sections.{
  Section, section_at, ElfInfo, chars_at, strtab_name, symtab_name, section_name,
}
use evos.Backtrace.Sections.Copy.{
  IsApart, IsCopyable, chars_at_ext, chars_at-IsByte, strcmp-yes, strcmp-no,
}

module _ (info : ElfInfo) (m : Bytes) where
  -- The address of the header of the section `i`, the section, and the start of the names.
  abbrev pub header_address : ℕ → ℕ
  header_address i = u32 (info.addr + 40 * i)

  abbrev pub section : ℕ → Section
  section i = section_at m (header_address i)

  abbrev pub names : ℕ
  names = (section info.shndx).addr

  abbrev pub name_of : ℕ → List ℕ
  name_of i = section_name m names (section i)

  -- An image in memory with one string table, the section `p`, and one table of symbols, `q`. The
  -- `p`'s contents can be copied to the address `first`, with eight bytes to spare, without
  -- changing the headers or what is read of the names.
  pub record IsImage (first p q : ℕ) : Type 0 where
    pub bytes : (a : ℕ) → m a < 256
    pub has_strtab : p < info.num
    pub has_symtab : q < info.num
    pub strtab : name_of p ≡ strtab_name
    pub symtab : name_of q ≡ symtab_name
    pub one_strtab : (i : ℕ) → i < info.num → i ≢ p → name_of i ≢ strtab_name
    pub one_symtab : (i : ℕ) → i < info.num → i ≢ q → name_of i ≢ symtab_name
    pub copyable : IsCopyable first (section p).addr (section p).size
    pub room : first + (section p).size + 8 < 2 ^ 32
    pub headers :
        (i k : ℕ) → i < info.num → k < 40 → IsApart first (section p).size (header_address i + k)
    pub unchanged :
        (i k : ℕ)
        → i < info.num
        → k < 8
        → IsApart first (section p).size (u32 (names + (section i).name + k))

  module _ (first p q : ℕ) (image : IsImage first p q) where
    -- The same memory outside the copy.
    unfoldable pub Agrees : Bytes → Type 0
    Agrees m' = (a : ℕ) → IsApart first (section p).size a → m' a ≡ m a

    same_word :
        (m' : Bytes) (i o : ℕ)
        → Agrees m'
        → i < info.num
        → o + 4 ≤ 40
        → load32 m' (header_address i + o) ≡ load32 m (header_address i + o)
    unfolding Agrees
    same_word m' i o agrees inside within = load32_ext m' m (header_address i + o) (λ a low high.
        let at : a ≡ header_address i + (a - header_address i) = omega arith in
        agrees a (rw at (image.headers i (a - header_address i) inside (omega arith))))

    pub same_section :
        (m' : Bytes) (i : ℕ)
        → Agrees m'
        → i < info.num
        → section_at m' (header_address i) ≡ section i
    unfolding section_at
    same_section m' i agrees inside =
        let name = same_word m' i 0 agrees inside (omega arith) in
        let at : header_address i + 0 ≡ header_address i = omega arith in
        let addr = same_word m' i 12 agrees inside (omega arith) in
        let size = same_word m' i 20 agrees inside (omega arith) in
        let name' : load32 m' (header_address i) ≡ load32 m (header_address i) = rw at at name in
        rw (name', addr, size) refl

    pub same_name :
        (m' : Bytes) (i : ℕ)
        → Agrees m'
        → i < info.num
        → chars_at m' 8 (u32 (names + (section i).name)) ≡ name_of i
    unfolding Agrees
    same_name m' i agrees inside =
        chars_at_ext m' m 8 (u32 (names + (section i).name))
          (λ o h.
            let at : u32 (u32 (names + (section i).name) + o) ≡ u32 (names + (section i).name + o) =
              omega arith in
            rw at (agrees (u32 (names + (section i).name + o)) (image.unchanged i o inside h)))
          (omega arith)

    strtab-IsByte : All IsByte strtab_name
    strtab-IsByte = ground arith

    symtab-IsByte : All IsByte symtab_name
    symtab-IsByte = ground arith

    name_of-IsByte : (i : ℕ) → All IsByte (name_of i)
    name_of-IsByte i = chars_at-IsByte m 8 (u32 (names + (section i).name)) image.bytes

    pub p-ne-q : p ≢ q
    p-ne-q e =
        let same : strtab_name ≡ symtab_name = sym image.strtab ∙ ap name_of e ∙ image.symtab in
        let char : ◌≡◌ {A = ℕ} 116 121 = ap (λ (t : List ℕ). get_or t 2 0) same in
        absurd (omega arith)

    pub first_test : (i : ℕ) → i < info.num → (strcmp (name_of i) strtab_name == 0) ≡ (i == p)
    first_test i inside = elim (ℕ_discrete i p) [
      | yes e ↦
          let here : (i == p) ≡ true = ground arith in
          strcmp-yes (name_of i) strtab_name (name_of-IsByte i) strtab-IsByte
            (ap name_of e ∙ image.strtab)
          ∙ sym here
      | no ne ↦
          let other : (i == p) ≡ false = ground arith in
          strcmp-no (name_of i) strtab_name (name_of-IsByte i) strtab-IsByte
            (image.one_strtab i inside ne)
          ∙ sym other
    ]

    pub second_test : (i : ℕ) → i < info.num → (strcmp (name_of i) symtab_name == 0) ≡ (i == q)
    second_test i inside = elim (ℕ_discrete i q) [
      | yes e ↦
          let here : (i == q) ≡ true = ground arith in
          strcmp-yes (name_of i) symtab_name (name_of-IsByte i) symtab-IsByte
            (ap name_of e ∙ image.symtab)
          ∙ sym here
      | no ne ↦
          let other : (i == q) ≡ false = ground arith in
          strcmp-no (name_of i) symtab_name (name_of-IsByte i) symtab-IsByte
            (image.one_symtab i inside ne)
          ∙ sym other
    ]
