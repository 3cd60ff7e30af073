-- ===== src/MemoryMap/Laws.antt =====
-- The memory that is chosen is the largest free one behind the kernel.

use evos.Base.{
  ℕ, ◌+◌, ◌-◌, ◌^◌, ◌≤◌, ◌<◌, ◌≡◌, refl, ap, ◌∙◌, false, List, [], ◌∷◌, All, Result, ok, ◌>>=◌,
  arith, ◌==◌, if◌then◌else◌, u32, dec_lt, max,
}
use evos.MemoryMap.{Region, Choice, is_64_bit, consider, choose}

-- A region with at least a byte that ends below 2 ^ 32.
abbrev pub IsLow : Region → Type 0
IsLow r = (0 < r.len) × (r.addr + r.len < 2 ^ 32)

-- The bytes of a region that are free and behind the kernel's image, and where they start.
abbrev pub usable : ℕ → Region → ℕ
usable kernel_end r = if r.kind == 1 then r.addr + r.len - max r.addr kernel_end else 0

abbrev pub usable_from : ℕ → Region → ℕ
usable_from kernel_end r = max r.addr kernel_end

-- The size of the largest such part, and 0 without one.
unfoldable pub largest : ℕ → List Region → ℕ
largest kernel_end [] = 0
largest kernel_end (r ∷ rs) = max (usable kernel_end r) (largest kernel_end rs)

-- Some region of the list has `size` such bytes, from `base` on.
pub data IsOffered : ℕ → List Region → ℕ → ℕ → Type 0 where
  here :
      (kernel_end : ℕ) (r : Region) (rs : List Region) (base size : ℕ)
      → base ≡ usable_from kernel_end r
      → size ≡ usable kernel_end r
      → IsOffered kernel_end (r ∷ rs) base size
  there :
      (kernel_end : ℕ) (r : Region) (rs : List Region) (base size : ℕ)
      → IsOffered kernel_end rs base size
      → IsOffered kernel_end (r ∷ rs) base size

-- One after the other, without the walk through memory.
unfoldable pub choose_each : ℕ → List Region → Choice → Result Choice
choose_each kernel_end [] c = ok c
choose_each kernel_end (r ∷ rs) c = choose kernel_end r c >>= λ next. choose_each kernel_end rs next

unfoldable pub total : List Region → ℕ
total [] = 0
total (r ∷ rs) = r.len + total rs

abbrev kept : Region → Choice → Choice
kept r c = record c { mem_total_bytes = u32 (c.mem_total_bytes + r.len) }

abbrev taken : ℕ → Region → Choice → Choice
taken kernel_end r c = record {
  base_addr = usable_from kernel_end r;
  region_len = usable kernel_end r;
  mem_total_bytes = u32 (c.mem_total_bytes + r.len);
}

low_is_32_bit : (r : Region) → IsLow r → is_64_bit r ≡ false
unfolding is_64_bit
low_is_32_bit r (some_bytes, fits) = ground arith

consider_lem :
    (kernel_end : ℕ) (r : Region) (c : Choice)
    → kernel_end < 2 ^ 32
    → IsLow r
    → r.kind ≡ 1
    → ((usable kernel_end r ≤ c.region_len) → consider kernel_end r c ≡ c)
      × ((c.region_len < usable kernel_end r)
          → consider kernel_end r c
            ≡ record c { base_addr = usable_from kernel_end r; region_len = usable kernel_end r })
unfolding consider
consider_lem kernel_end r c low (some_bytes, fits) free = (ground arith, ground arith)

-- One round keeps the choice when it is at least as large,
choose_kept :
    (kernel_end : ℕ) (r : Region) (c : Choice)
    → kernel_end < 2 ^ 32
    → IsLow r
    → usable kernel_end r ≤ c.region_len
    → choose kernel_end r c ≡ ok (kept r c)
unfolding choose
choose_kept kernel_end r c low is_low small =
    let counted = record c { mem_total_bytes = u32 (c.mem_total_bytes + r.len) } in
    let free = consider_lem kernel_end r counted low is_low in
    let is_32_bit = low_is_32_bit r is_low in ground arith

-- and takes the region's part when that is larger.
choose_taken :
    (kernel_end : ℕ) (r : Region) (c : Choice)
    → kernel_end < 2 ^ 32
    → IsLow r
    → c.region_len < usable kernel_end r
    → choose kernel_end r c ≡ ok (taken kernel_end r c)
unfolding choose
choose_taken kernel_end r c low is_low large =
    let counted = record c { mem_total_bytes = u32 (c.mem_total_bytes + r.len) } in
    let free = consider_lem kernel_end r counted low is_low in
    let is_32_bit = low_is_32_bit r is_low in ground arith

-- What the rounds leave: the largest part, which a region offers unless it was there before.
unfoldable pub IsChosen : ℕ → List Region → Choice → Choice → Type 0
IsChosen kernel_end rs c chosen =
    (chosen.region_len ≡ max c.region_len (largest kernel_end rs))
    × (chosen.mem_total_bytes ≡ u32 (c.mem_total_bytes + total rs))
    × (c.region_len < chosen.region_len
        → IsOffered kernel_end rs chosen.base_addr chosen.region_len)
    × (chosen.region_len ≤ c.region_len → chosen.base_addr ≡ c.base_addr)

pub choose_each_lem :
    (kernel_end : ℕ) (rs : List Region) (c : Choice)
    → kernel_end < 2 ^ 32
    → All IsLow rs
    → c.mem_total_bytes < 2 ^ 32
    → (chosen : Choice) × (choose_each kernel_end rs c ≡ ok chosen)
      × IsChosen kernel_end rs c chosen
unfolding choose_each largest total IsChosen
choose_each_lem kernel_end [] c low lows small =
    (c, refl, (omega arith, ground arith, (λ h. absurd (omega arith)), λ h. refl))
choose_each_lem kernel_end (r ∷ rs) c low (is_low, lows) small =
    elim (dec_lt c.region_len (usable kernel_end r)) [
      | yes larger ↦
          let next = taken kernel_end r c in
          let (chosen, runs, (size, sum, offered, same)) =
            choose_each_lem kernel_end rs next low lows (omega arith) in
          let step = choose_taken kernel_end r c low is_low larger in
          (
            chosen,
            ap (λ x. x >>= choose_each kernel_end rs) step ∙ runs,
            (
              omega arith,
              omega arith,
              (λ h. elim (dec_lt next.region_len chosen.region_len) [
                | yes later ↦
                    there kernel_end r rs chosen.base_addr chosen.region_len (offered later)
                | no first ↦
                    here kernel_end r rs chosen.base_addr chosen.region_len (same (omega arith))
                      (omega arith)
              ]),
              λ h. absurd (omega arith),
            ),
          )
      | no smaller ↦
          let next = kept r c in
          let (chosen, runs, (size, sum, offered, same)) =
            choose_each_lem kernel_end rs next low lows (omega arith) in
          let step = choose_kept kernel_end r c low is_low (omega arith) in
          (
            chosen,
            ap (λ x. x >>= choose_each kernel_end rs) step ∙ runs,
            (
              omega arith,
              omega arith,
              (λ h. there kernel_end r rs chosen.base_addr chosen.region_len (offered h)),
              same,
            ),
          )
    ]
