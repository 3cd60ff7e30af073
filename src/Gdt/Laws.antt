-- ===== src/Gdt/Laws.antt =====
-- What the processor reads from the descriptors.
use evos.Base.{
  ℕ, zero, suc, ◌+◌, ◌-◌, ◌*◌, ◌/◌, ◌%◌, ◌^◌, ◌≤◌, ◌<◌, ◌≡◌, refl, true, List, [], ◌∷◌, arith, ltb,
  ◌==◌, if◌then◌else◌, get_or,
}
use evos.Gdt.{AccessFlags, GdtEntry, zero_entry, set_entry, tss_size, tss_descriptor, gdt_entries}

-- The processor's reading of a descriptor: its base, and the last offset in the segment.
abbrev pub segment_base : GdtEntry → ℕ
segment_base e = e.base_lower + 2 ^ 16 * e.base_mid + 2 ^ 24 * e.base_high

abbrev pub last_offset : GdtEntry → ℕ
last_offset e =
    let limit = e.limit_lower + 2 ^ 16 * e.granularity.limit_high in
    if e.granularity.granularity == 1 then limit * 4096 + 4095 else limit

-- The byte of an access flag field.
abbrev pub access_byte : AccessFlags → ℕ
access_byte f = f.segment_params + 8 * f.is_code + 16 * f.reserved + 32 * f.ring + 128 * f.present

-- The bytes of a descriptor in memory, lowest first.
abbrev pub descriptor_bytes : GdtEntry → List ℕ
descriptor_bytes e =
    (e.limit_lower % 256)
    ∷ (e.limit_lower / 256)
    ∷ (e.base_lower % 256)
    ∷ (e.base_lower / 256)
    ∷ e.base_mid
    ∷ access_byte e.access_flags
    ∷ (e.granularity.limit_high
        + 16 * e.granularity.reserved
        + 64 * e.granularity.operand_size
        + 128 * e.granularity.granularity)
    ∷ e.base_high
    ∷ []

-- The processor finds the base that `gdt_set_entry` was given. The last offset is the limit that it
-- was given, if that fits 16 bits and bytes were asked for; a larger limit is rounded up to the last
-- byte of its page, in units of pages whatever was asked for.
pub set_entry_lem :
    (ent : GdtEntry) (base limit : ℕ) (flags : AccessFlags) (use_4kib : ℕ)
    → base < 2 ^ 32
    → limit < 2 ^ 32
    → let e = set_entry ent base limit flags use_4kib in
      (segment_base e ≡ base)
      × (limit ≤ 0xFFFF → use_4kib ≡ 0 → last_offset e ≡ limit)
      × (0xFFFF < limit → last_offset e ≡ limit / 4096 * 4096 + 4095)
unfolding set_entry
set_entry_lem ent base limit flags use_4kib b l =
    (omega arith, λ h z. ground arith, λ h. ground arith)

-- The four segments of `init_gdt` span the whole address space, the kernel's with ring 0 and the
-- user's with ring 3; the task segment starts at the TSS and has its size for a limit.
pub gdt_entries_lem :
    (tss : ℕ)
    → tss < 2 ^ 32
    → let table = gdt_entries true tss in
      ((i : ℕ)
        → 1 ≤ i
        → i ≤ 4
        → (segment_base (get_or table i zero_entry) ≡ 0)
          × (last_offset (get_or table i zero_entry) ≡ 2 ^ 32 - 1)
          × ((get_or table i zero_entry).access_flags.ring ≡ (if ltb i 3 then 0 else 3)))
      × (segment_base (get_or table 5 zero_entry) ≡ tss)
      × (last_offset (get_or table 5 zero_entry) ≡ tss_size)
unfolding gdt_entries set_entry tss_descriptor
gdt_entries_lem tss h = (segment, omega arith, refl)
  where
    segment :
        (i : ℕ)
        → 1 ≤ i
        → i ≤ 4
        → (segment_base (get_or (gdt_entries true tss) i zero_entry) ≡ 0)
          × (last_offset (get_or (gdt_entries true tss) i zero_entry) ≡ 2 ^ 32 - 1)
          × ((get_or (gdt_entries true tss) i zero_entry).access_flags.ring
              ≡ (if ltb i 3 then 0 else 3))
    segment zero p q = absurd (omega arith)
    segment (suc zero) p q = (refl, refl, refl)
    segment (suc (suc zero)) p q = (refl, refl, refl)
    segment (suc (suc (suc zero))) p q = (refl, refl, refl)
    segment (suc (suc (suc (suc zero)))) p q = (refl, refl, refl)
    segment (suc (suc (suc (suc (suc i))))) p q = absurd (omega arith)
