-- ===== src/Gdt.antt =====
-- src/gdt.c and gdt.h: segment descriptors, field by field, and the table that `init_gdt` loads.
pub mod Laws
mod Examples
use evos.Base.{ℕ, ◌+◌, ◌-◌, ◌*◌, ◌/◌, ◌%◌, ◌^◌, Bool, List, [], ◌∷◌, ltb, if◌then◌else◌, bit_or}

-- `access_flags_t`, a byte of bit-fields
pub record AccessFlags : Type 0 where
  pub segment_params : ℕ
  pub is_code : ℕ
  pub reserved : ℕ
  pub ring : ℕ
  pub present : ℕ

-- `granularity_flags_t`
pub record Granularity : Type 0 where
  pub limit_high : ℕ
  pub reserved : ℕ
  pub operand_size : ℕ
  pub granularity : ℕ

-- `struct gdt_entry`
pub record GdtEntry : Type 0 where
  pub limit_lower : ℕ
  pub base_lower : ℕ
  pub base_mid : ℕ
  pub access_flags : AccessFlags
  pub granularity : Granularity
  pub base_high : ℕ

-- `gdt_ptr_t`
pub record GdtPtr : Type 0 where
  pub limit : ℕ
  pub base : ℕ

-- `tss_entry_t`
pub record TssEntry : Type 0 where
  pub prev_tss : ℕ
  pub esp0 : ℕ
  pub ss0 : ℕ
  pub esp1 : ℕ
  pub ss1 : ℕ
  pub esp2 : ℕ
  pub ss2 : ℕ
  pub cr3 : ℕ
  pub eip : ℕ
  pub eflags : ℕ
  pub eax : ℕ
  pub ecx : ℕ
  pub edx : ℕ
  pub ebx : ℕ
  pub esp : ℕ
  pub ebp : ℕ
  pub esi : ℕ
  pub edi : ℕ
  pub es : ℕ
  pub cs : ℕ
  pub ss : ℕ
  pub ds : ℕ
  pub fs : ℕ
  pub gs : ℕ
  pub ldt : ℕ
  pub trap : ℕ
  pub iomap_base : ℕ

-- A descriptor in the memory that the loader clears.
abbrev pub zero_entry : GdtEntry
zero_entry = record {
  limit_lower = 0;
  base_lower = 0;
  base_mid = 0;
  access_flags = record { segment_params = 0; is_code = 0; reserved = 0; ring = 0; present = 0 };
  granularity = record { limit_high = 0; reserved = 0; operand_size = 0; granularity = 0 };
  base_high = 0;
}

-- The limit and granularity that `gdt_set_entry` goes on with.
unfoldable pub scaled_limit : ℕ → ℕ → ℕ × ℕ
scaled_limit limit use_4kib = if ltb 0xFFFF limit then (limit / 2 ^ 12, 1) else (limit, use_4kib)

unfoldable pub set_entry : GdtEntry → ℕ → ℕ → AccessFlags → ℕ → GdtEntry
unfolding scaled_limit
set_entry ent base limit access_flags use_4kib =
    let (limit', granularity) = scaled_limit limit use_4kib in
    record {
      limit_lower = limit' % 2 ^ 16;
      base_lower = base % 2 ^ 16;
      base_mid = base / 2 ^ 16 % 2 ^ 8;
      access_flags = access_flags;
      granularity = record {
        limit_high = limit' / 2 ^ 16 % 2 ^ 4;
        reserved = ent.granularity.reserved;
        operand_size = 1;
        granularity = granularity % 2;
      };
      base_high = base / 2 ^ 24 % 2 ^ 8;
    }

-- `sizeof(tss_entry_t)`: 25 words and two half words
abbrev pub tss_size : ℕ
tss_size = 104

-- The descriptor part of `write_tss`; `tss` is the address of the static variable.
unfoldable pub tss_descriptor : ℕ → GdtEntry
tss_descriptor tss = record {
  limit_lower = tss_size % 2 ^ 16;
  base_lower = tss % 2 ^ 16;
  base_mid = tss / 2 ^ 16 % 2 ^ 8;
  access_flags = record { segment_params = 1; is_code = 1; reserved = 0; ring = 3; present = 1 };
  granularity = record {
    limit_high = tss_size / 2 ^ 16 % 2 ^ 4;
    reserved = 0;
    operand_size = 0;
    granularity = 0;
  };
  base_high = tss / 2 ^ 24 % 2 ^ 8;
}

-- The other part; `stack` is `kernel_relocated_stack`.
unfoldable pub tss_contents : ℕ → TssEntry
tss_contents stack = record {
  prev_tss = 0;
  esp0 = stack;
  ss0 = 0x10;
  esp1 = 0;
  ss1 = 0;
  esp2 = 0;
  ss2 = 0;
  cr3 = 0;
  eip = 0;
  eflags = 0;
  eax = 0;
  ecx = 0;
  edx = 0;
  ebx = 0;
  esp = 0;
  ebp = 0;
  esi = 0;
  edi = 0;
  es = bit_or 0x10 3;
  cs = bit_or 0x08 3;
  ss = bit_or 0x10 3;
  ds = bit_or 0x10 3;
  fs = bit_or 0x10 3;
  gs = bit_or 0x10 3;
  ldt = 0;
  trap = 0;
  iomap_base = 0;
}

abbrev pub segment_flags : ℕ → ℕ → AccessFlags
segment_flags ring is_code = record {
  segment_params = 2;
  is_code = is_code;
  reserved = 1;
  ring = ring;
  present = 1;
}

-- What `init_gdt` leaves in `gdt_entries`.
unfoldable pub gdt_entries : Bool → ℕ → List GdtEntry
gdt_entries init_tss tss =
    set_entry zero_entry 0 0 zero_entry.access_flags 0
    ∷ set_entry zero_entry 0 0xFFFFFFFF (segment_flags 0 1) 1
    ∷ set_entry zero_entry 0 0xFFFFFFFF (segment_flags 0 0) 1
    ∷ set_entry zero_entry 0 0xFFFFFFFF (segment_flags 3 1) 1
    ∷ set_entry zero_entry 0 0xFFFFFFFF (segment_flags 3 0) 1
    ∷ (if init_tss then tss_descriptor tss else zero_entry)
    ∷ []

-- The operand of `lgdt`; `entries` is the address of the table.
unfoldable pub gdt_ptr : ℕ → GdtPtr
gdt_ptr entries = record { limit = 8 * 6 - 1; base = entries }
