-- ===== src/MemoryMap/Walk.antt =====
-- The walk through the map in memory, and init_mem as a whole.
use evos.Base.{
  leb, ◌%◌, ◌-◌, ℕ, zero, suc, ◌+◌, ◌*◌, ◌^◌, ◌≤◌, ◌<◌, ◌≡◌, ap, ◌∙◌, Bool, true, false, ◌||◌, List,
  [], ◌∷◌, All, Result, ok, panic, ◌>>=◌, arith, ltb, ◌==◌, u32, Bool-cases, sym, second_part, ◌≢◌,
  if◌then◌else◌, inl, inr, false,
}
use evos.Base.Bits.{bit}
use evos.Base.Memory.{Bytes, load32}
use evos.Frame.{FrameAllocator, init_frames}
use evos.MemoryMap.{
  Region, region_at, Choice, MultibootInfo, is_64_bit, consider, choose, choose_all, init_mem,
}
use evos.MemoryMap.Laws.{IsLow, IsOffered, IsChosen, largest, choose_each, total, choose_each_lem}

-- The map in `m` from `mmap` to `last` has the entries `rs`: each starts with its size, without
-- the four bytes of the size itself.
unfoldable pub IsMap : Bytes → ℕ → ℕ → List Region → Type 0
IsMap m last mmap [] = last ≤ mmap
IsMap m last mmap (r ∷ rs) =
    (mmap < last)
    × (r ≡ region_at m mmap)
    × (mmap + load32 m mmap + 4 < 2 ^ 32)
    × IsMap m last (mmap + load32 m mmap + 4) rs

choose_all_stop :
    (fuel : ℕ) (m : Bytes) (kernel_end last mmap : ℕ) (c : Choice)
    → last ≤ mmap
    → choose_all (suc fuel) m kernel_end last mmap c ≡ ok c
unfolding choose_all
choose_all_stop fuel m kernel_end last mmap c h = ground arith

choose_all_step :
    (fuel : ℕ) (m : Bytes) (kernel_end last mmap : ℕ) (c : Choice)
    → mmap < last
    → choose_all (suc fuel) m kernel_end last mmap c ≡ (
        choose kernel_end (region_at m mmap) c
        >>= choose_all fuel m kernel_end last (u32 (mmap + load32 m mmap + 4)))
unfolding choose_all
choose_all_step fuel m kernel_end last mmap c h = ground arith

-- The walk is choose_each on the entries, when the fuel reaches from `mmap` to `last`.
choose_all-choose_each :
    (fuel : ℕ) (m : Bytes) (kernel_end last mmap : ℕ) (rs : List Region) (c : Choice)
    → IsMap m last mmap rs
    → last ≤ mmap + fuel
    → choose_all (suc fuel) m kernel_end last mmap c ≡ choose_each kernel_end rs c
unfolding IsMap choose_each
choose_all-choose_each fuel m kernel_end last mmap [] c ended enough =
    choose_all_stop fuel m kernel_end last mmap c ended
choose_all-choose_each zero m kernel_end last mmap (r ∷ rs) c (inside, same, small, rest) enough =
    absurd (omega arith)
choose_all-choose_each (suc fuel) m kernel_end last mmap (r ∷ rs) c (inside, same, small, rest)
      enough =
    choose_all_step (suc fuel) m kernel_end last mmap c inside
    ∙ second_part (choose kernel_end (region_at m mmap) c)
        (choose_all (suc fuel) m kernel_end last (u32 (mmap + load32 m mmap + 4)))
        (choose_each kernel_end rs)
        (λ next.
          ap (λ a. choose_all (suc fuel) m kernel_end last a next) (omega arith)
          ∙ choose_all-choose_each fuel m kernel_end last (mmap + load32 m mmap + 4) rs next rest
              (omega arith))
    ∙ ap (λ q. choose kernel_end q c >>= choose_each kernel_end rs) (sym same)

-- Whether a region starts at 2 ^ 32 or beyond, or its last byte, in 64 bits, stands there.
abbrev pub is_beyond : Region → Bool
is_beyond r = leb (2 ^ 32) r.addr || leb (2 ^ 32) ((r.addr + r.len + 2 ^ 64 - 1) % 2 ^ 64)

is_64_bit-is_beyond : (r : Region) → is_64_bit r ≡ is_beyond r
unfolding is_64_bit
is_64_bit-is_beyond r = ground arith

-- Whether some region does not fit in 32 bits.
unfoldable pub any_64_bit : List Region → Bool
any_64_bit [] = false
any_64_bit (r ∷ rs) = is_beyond r || any_64_bit rs

choose_64_bit :
    (kernel_end : ℕ) (r : Region) (c : Choice) → is_beyond r ≡ true → choose kernel_end r c ≡ panic
unfolding choose
choose_64_bit kernel_end r c wide =
    let beyond : is_64_bit r ≡ true = is_64_bit-is_beyond r ∙ wide in ground arith

choose_32_bit :
    (kernel_end : ℕ) (r : Region) (c : Choice)
    → is_beyond r ≡ false
    → (next : Choice) × (choose kernel_end r c ≡ ok next)
unfolding choose
choose_32_bit kernel_end r c narrow =
    let below : is_64_bit r ≡ false = is_64_bit-is_beyond r ∙ narrow in
    let counted = record c { mem_total_bytes = u32 (c.mem_total_bytes + r.len) } in
    (if r.kind == 1 then consider kernel_end r counted else counted, ground arith)

choose_each_64_bit :
    (kernel_end : ℕ) (rs : List Region) (c : Choice)
    → any_64_bit rs ≡ true
    → choose_each kernel_end rs c ≡ panic
unfolding any_64_bit choose_each
choose_each_64_bit kernel_end [] c wide = absurd (ground arith)
choose_each_64_bit kernel_end (r ∷ rs) c wide = elim (Bool-cases (is_beyond r)) [
  | inl here ↦ ap (λ x. x >>= choose_each kernel_end rs) (choose_64_bit kernel_end r c here)
  | inr narrow ↦
      let (next, step) = choose_32_bit kernel_end r c narrow in
      ap (λ x. x >>= choose_each kernel_end rs) step
      ∙ choose_each_64_bit kernel_end rs next (ground arith)
]

abbrev pub no_choice : Choice
no_choice = record { base_addr = 0; region_len = 0; mem_total_bytes = 0 }

-- What `init_mem` does with the choice.
abbrev use_choice : List ℕ → Choice → Result (Choice × FrameAllocator)
use_choice region c =
    if ltb (16 * 1024 * 1024) c.region_len
    then ok (c, init_frames region c.mem_total_bytes)
    else panic

use_choice_poor :
    (region : List ℕ) (c : Choice) → c.region_len ≤ 16 * 2 ^ 20 → use_choice region c ≡ panic
use_choice_poor region c poor = ground arith

use_choice_rich :
    (region : List ℕ) (c : Choice)
    → 16 * 2 ^ 20 < c.region_len
    → use_choice region c ≡ ok (c, init_frames region c.mem_total_bytes)
use_choice_rich region c rich = ground arith

init_mem-no_map :
    (m : Bytes) (kernel_end : ℕ) (mboot : MultibootInfo) (region : List ℕ)
    → bit mboot.flags 6 ≡ 0
    → init_mem m kernel_end mboot region ≡ panic
unfolding init_mem
init_mem-no_map m kernel_end mboot region missing =
    let test : (bit mboot.flags 6 == 0) ≡ true = ground arith in
    ap
      (λ b.
        if b
        then panic
        else (choose_all (suc mboot.mmap_length) m kernel_end
              (u32 (mboot.mmap_addr + mboot.mmap_length)) mboot.mmap_addr no_choice
            >>= use_choice region))
      test

init_mem-choose_each :
    (m : Bytes) (kernel_end : ℕ) (mboot : MultibootInfo) (region : List ℕ) (rs : List Region)
    → mboot.mmap_addr + mboot.mmap_length < 2 ^ 32
    → IsMap m (mboot.mmap_addr + mboot.mmap_length) mboot.mmap_addr rs
    → bit mboot.flags 6 ≢ 0
    → init_mem m kernel_end mboot region
      ≡ (choose_each kernel_end rs no_choice >>= use_choice region)
unfolding init_mem
init_mem-choose_each m kernel_end mboot region rs small map valid =
    let walk =
      choose_all-choose_each mboot.mmap_length m kernel_end (mboot.mmap_addr + mboot.mmap_length)
        mboot.mmap_addr rs no_choice map (omega arith) in
    let test : (bit mboot.flags 6 == 0) ≡ false = ground arith in
    ap
      (λ b.
        if b
        then panic
        else (choose_all (suc mboot.mmap_length) m kernel_end
              (u32 (mboot.mmap_addr + mboot.mmap_length)) mboot.mmap_addr no_choice
            >>= use_choice region))
      test
    ∙ ap
        (λ a.
          choose_all (suc mboot.mmap_length) m kernel_end a mboot.mmap_addr no_choice
          >>= use_choice region)
        (omega arith)
    ∙ ap (λ x. x >>= use_choice region) walk

-- For a map that lies in memory entry after entry below 2 ^ 32, and a kernel that ends below 2 ^ 32:
-- init_mem panics when the boot loader says that there is no map, and when some region does not
-- fit in 32 bits. When all regions have a byte and end below 2 ^ 32, it panics when the largest
-- free part of a region behind the kernel has at most 16 MiB; otherwise it takes a largest such
-- part, with the start and the size that a region offers, and sets up the frame allocator for
-- the sum of all regions' sizes, modulo 2 ^ 32.
pub init_mem_lem :
    (m : Bytes) (kernel_end : ℕ) (mboot : MultibootInfo) (region : List ℕ) (rs : List Region)
    → kernel_end < 2 ^ 32
    → mboot.mmap_addr + mboot.mmap_length < 2 ^ 32
    → IsMap m (mboot.mmap_addr + mboot.mmap_length) mboot.mmap_addr rs
    → (bit mboot.flags 6 ≡ 0 → init_mem m kernel_end mboot region ≡ panic)
      × (bit mboot.flags 6 ≢ 0 → any_64_bit rs ≡ true → init_mem m kernel_end mboot region ≡ panic)
      × (bit mboot.flags 6 ≢ 0
          → All IsLow rs
          → largest kernel_end rs ≤ 16 * 2 ^ 20
          → init_mem m kernel_end mboot region ≡ panic)
      × (bit mboot.flags 6 ≢ 0
          → All IsLow rs
          → 16 * 2 ^ 20 < largest kernel_end rs
          → (c : Choice) × (init_mem m kernel_end mboot region
              ≡ ok (c, init_frames region (u32 (total rs))))
            × (c.region_len ≡ largest kernel_end rs)
            × IsOffered kernel_end rs c.base_addr c.region_len)
unfolding IsChosen total
init_mem_lem m kernel_end mboot region rs low small map =
    let runs = init_mem-choose_each m kernel_end mboot region rs small map in
    (
      init_mem-no_map m kernel_end mboot region,
      (λ valid wide.
          runs valid
          ∙ ap (λ x. x >>= use_choice region) (choose_each_64_bit kernel_end rs no_choice wide)),
      (λ valid lows poor.
          let (c, chosen, (size, sum, offered, same)) =
            choose_each_lem kernel_end rs no_choice low lows (omega arith) in
          runs valid
          ∙ ap (λ x. x >>= use_choice region) chosen
          ∙ use_choice_poor region c (omega arith)),
      λ valid lows rich.
          let (c, chosen, (size, sum, offered, same)) =
            choose_each_lem kernel_end rs no_choice low lows (omega arith) in
          (
            c,
            runs valid
                ∙ ap (λ x. x >>= use_choice region) chosen
                ∙ use_choice_rich region c (omega arith)
                ∙ ap (λ n. ok (c, init_frames region n)) (omega arith),
            omega arith,
            offered (omega arith),
          ),
    )
