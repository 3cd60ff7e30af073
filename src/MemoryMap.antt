-- ===== src/MemoryMap.antt =====
-- src/mm/mem.c: init_mem, which picks the memory that the kernel uses from the boot loader's map.
-- `m` is the memory that holds the map; `__end` is the end of the kernel's image.
pub mod Walk
pub mod Laws
mod Examples
use evos.Base.{
  ℕ, zero, suc, ◌+◌, ◌-◌, ◌*◌, ◌/◌, ◌%◌, ◌^◌, Bool, true, false, not, ◌||◌, List, [], ◌∷◌, Result,
  ok, panic, fault, ◌>>=◌, ltb, leb, ◌==◌, if◌then◌else◌, u32, sub32,
}
use evos.Base.Bits.{bit}
use evos.Base.Memory.{Bytes, load32}
use evos.Frame.{FrameAllocator, init_frames}

-- The fields of `multiboot_memory_map_t` that are used, besides its size.
pub record Region : Type 0 where
  pub addr : ℕ
  pub len : ℕ
  pub kind : ℕ

abbrev pub load64 : Bytes → ℕ → ℕ
load64 m a = load32 m a + 2 ^ 32 * load32 m (a + 4)

abbrev pub region_at : Bytes → ℕ → Region
region_at m a = record {
  addr = load64 m (a + 4);
  len = load64 m (a + 12);
  kind = load32 m (a + 20);
}

-- The variables of the loop.
pub record Choice : Type 0 where
  pub base_addr : ℕ
  pub region_len : ℕ
  pub mem_total_bytes : ℕ

-- `mmap->addr >> 32 || (mmap->addr + mmap->len - 1) >> 32`, in 64 bits
unfoldable pub is_64_bit : Region → Bool
is_64_bit r =
    not (r.addr / 2 ^ 32 == 0) || not ((r.addr + r.len + 2 ^ 64 - 1) % 2 ^ 64 / 2 ^ 32 == 0)

-- The branch for a free region.
unfoldable pub consider : ℕ → Region → Choice → Choice
consider kernel_end r c =
    let end_addr = u32 (u32 r.addr + r.len) in
    let start = if ltb (u32 r.addr) kernel_end then kernel_end else u32 r.addr in
    if leb kernel_end end_addr
    then if ltb c.region_len (sub32 end_addr start)
      then record c { base_addr = start; region_len = sub32 end_addr start }
      else c
    else c

-- The body of the loop.
unfoldable pub choose : ℕ → Region → Choice → Result Choice
choose kernel_end r c =
    if is_64_bit r
    then panic
    else let counted = record c { mem_total_bytes = u32 (c.mem_total_bytes + r.len) } in
      ok (if r.kind == 1 then consider kernel_end r counted else counted)

-- The loop, on fuel, from the address `mmap`.
unfoldable pub choose_all : ℕ → Bytes → ℕ → ℕ → ℕ → Choice → Result Choice
choose_all zero m kernel_end last mmap c = fault
choose_all (suc fuel) m kernel_end last mmap c = elim (ltb mmap last) [
  | Bool.false ↦ ok c
  | Bool.true ↦ do
    next ← choose kernel_end (region_at m mmap) c
    choose_all fuel m kernel_end last (u32 (mmap + load32 m mmap + 4)) next
]

-- The fields of `multiboot_info_t` that are used.
pub record MultibootInfo : Type 0 where
  pub flags : ℕ
  pub mmap_addr : ℕ
  pub mmap_length : ℕ

-- What `init_mem` leaves behind: `mem_first_unused` and `mem_total_bytes`, and the frame allocator,
-- in the memory `region`. `init_paging` is in Paging/Init.
unfoldable pub init_mem : Bytes → ℕ → MultibootInfo → List ℕ → Result (Choice × FrameAllocator)
init_mem m kernel_end mboot region = if bit mboot.flags 6 == 0 then panic else (do
  c ←
      choose_all (suc mboot.mmap_length) m kernel_end (u32 (mboot.mmap_addr + mboot.mmap_length))
        mboot.mmap_addr (record { base_addr = 0; region_len = 0; mem_total_bytes = 0 })
  if ltb (16 * 1024 * 1024) c.region_len
      then ok (c, init_frames region c.mem_total_bytes)
      else panic)
