-- ===== src/MemoryMap/Examples.antt =====
-- The memory map of a machine with 64 MiB.
use evos.Base.{
  ℕ, ◌-◌, ◌*◌, ◌/◌, ◌%◌, ◌^◌, ◌≡◌, ◌≢◌, refl, List, [], ◌∷◌, ok, panic, All, ◌≤◌, ◌<◌, true, arith,
  get_or, u32, replicate,
}
use evos.Base.Bits.{bit}
use evos.Base.Memory.{Bytes, load32}
use evos.Frame.{init_frames}
use evos.MemoryMap.{
  Region, Choice, MultibootInfo, is_64_bit, consider, choose, choose_all, init_mem,
}
use evos.MemoryMap.Laws.{IsLow, IsOffered, largest, total}
use evos.MemoryMap.Walk.{IsMap, any_64_bit, init_mem_lem}

-- Three entries: 636 KiB at 0, free; 64 KiB below 1 MiB, used; the rest up to 64 MiB, free.
abbrev words : List ℕ
words =
    20 ∷ 0 ∷ 0 ∷ 0x9f000 ∷ 0 ∷ 1 ∷ 20 ∷ 0xf0000 ∷ 0 ∷ 0x10000 ∷ 0 ∷ 2 ∷ 20 ∷ 0x100000 ∷ 0
    ∷ 0x3f00000 ∷ 0 ∷ 1 ∷ []

-- in memory from 0x1000 on
abbrev bytes : Bytes
bytes a = get_or words ((a - 0x1000) / 4) 0 / 256 ^ (a % 4) % 256

abbrev regions : List Region
regions =
    record { addr = 0; len = 0x9f000; kind = 1 }
    ∷ record { addr = 0xf0000; len = 0x10000; kind = 2 }
    ∷ record { addr = 0x100000; len = 0x3f00000; kind = 1 }
    ∷ []

abbrev info : MultibootInfo
info = record { flags = 64; mmap_addr = 0x1000; mmap_length = 72 }

regions-IsMap : IsMap bytes 0x1048 0x1000 regions
unfolding IsMap load32
regions-IsMap = (
  omega arith,
  refl,
  omega arith,
  (omega arith, refl, omega arith, (omega arith, refl, omega arith, omega arith)),
)

init_mem_lem_example :
    (bit 64 6 ≡ 0 → init_mem bytes 0x120000 info (replicate 512 0) ≡ panic)
    × (bit 64 6 ≢ 0
        → any_64_bit regions ≡ true
        → init_mem bytes 0x120000 info (replicate 512 0) ≡ panic)
    × (bit 64 6 ≢ 0
        → All IsLow regions
        → largest 0x120000 regions ≤ 16 * 2 ^ 20
        → init_mem bytes 0x120000 info (replicate 512 0) ≡ panic)
    × (bit 64 6 ≢ 0
        → All IsLow regions
        → 16 * 2 ^ 20 < largest 0x120000 regions
        → (c : Choice) × (init_mem bytes 0x120000 info (replicate 512 0)
            ≡ ok (c, init_frames (replicate 512 0) (u32 (total regions))))
          × (c.region_len ≡ largest 0x120000 regions)
          × IsOffered 0x120000 regions c.base_addr c.region_len)
init_mem_lem_example =
    init_mem_lem bytes 0x120000 info (replicate 512 0) regions (omega arith) (omega arith)
      regions-IsMap

-- The run itself.
init_mem_run :
    choose_all 73 bytes 0x120000 0x1048 0x1000
      (record { base_addr = 0; region_len = 0; mem_total_bytes = 0 })
    ≡ ok (record { base_addr = 0x120000; region_len = 0x3ee0000; mem_total_bytes = 0x3faf000 })
unfolding choose_all choose consider is_64_bit load32
init_mem_run = refl

-- A free region that ends at 2 ^ 32 is not considered, since its end is 0 in 32 bits.
consider_last :
    consider 0x120000
      (record { addr = 0xf0000000; len = 0x10000000; kind = 1 })
      (record { base_addr = 0; region_len = 0; mem_total_bytes = 0 })
    ≡ record { base_addr = 0; region_len = 0; mem_total_bytes = 0 }
unfolding consider
consider_last = refl
