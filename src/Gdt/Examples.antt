-- ===== src/Gdt/Examples.antt =====
-- Descriptors at concrete inputs.
use evos.Base.{ℕ, ◌+◌, ◌*◌, ◌/◌, ◌≤◌, ◌<◌, ◌≡◌, refl, [], ◌∷◌, arith}
use evos.Gdt.{zero_entry, set_entry, segment_flags, tss_descriptor}
use evos.Gdt.Laws.{segment_base, last_offset, descriptor_bytes, set_entry_lem}

-- The flat kernel code segment, byte by byte.
kernel_code_bytes :
    descriptor_bytes (set_entry zero_entry 0 0xFFFFFFFF (segment_flags 0 1) 1)
    ≡ 0xFF ∷ 0xFF ∷ 0 ∷ 0 ∷ 0 ∷ 0x9A ∷ 0xCF ∷ 0 ∷ []
unfolding set_entry
kernel_code_bytes = refl

task_bytes :
    descriptor_bytes (tss_descriptor 0x12345678)
    ≡ 104 ∷ 0 ∷ 0x78 ∷ 0x56 ∷ 0x34 ∷ 0xE9 ∷ 0 ∷ 0x12 ∷ []
unfolding tss_descriptor
task_bytes = refl

set_entry_lem_example :
    let e = set_entry zero_entry 0x12345678 0x12345 (segment_flags 0 1) 0 in
    (segment_base e ≡ 0x12345678)
    × (0x12345 ≤ 0xFFFF → ◌≡◌ {A = ℕ} 0 0 → last_offset e ≡ 0x12345)
    × (0xFFFF < 0x12345 → last_offset e ≡ 0x12345 / 4096 * 4096 + 4095)
set_entry_lem_example =
    set_entry_lem zero_entry 0x12345678 0x12345 (segment_flags 0 1) 0 (omega arith) (omega arith)
