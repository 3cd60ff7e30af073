-- ===== src/Paging/Early.antt =====
-- The allocator that paging.c has before the kernel heap exists.

use evos.Base.{ℕ, ◌+◌, ◌*◌, ◌^◌, ◌<◌, ◌≡◌, refl, Bool, true, Option, none, Result, ok, ◌>>=◌, arith}
use evos.Kmalloc.{Kernel, linear_kmalloc, kmalloc_physical, kmalloc_ap}
use evos.Kmalloc.Laws.{linear_kmalloc_lem}
use evos.Paging.{Paging}
use evos.Paging.Laws.{IsAllocator}

-- Addresses below `mem_first_unused` have been handed out.
abbrev pub EarlyOwned : {Pages : Type 0} → Kernel Pages → ℕ → Type 0
EarlyOwned k a = a < k.mem_first_unused

-- No heap yet, and 16 KiB of address space for each block.
abbrev pub EarlyRoom : {Pages : Type 0} → Kernel Pages → ℕ → Type 0
EarlyRoom k n =
    (k.kernel_heap ≡ none) × (0 < k.mem_first_unused) × (k.mem_first_unused + n * 16384 < 2 ^ 32)

module _ {Pages : Type 0} (map_page : ℕ → Bool → Bool → Pages → Result Pages)
    (page_address : Pages → ℕ → Option ℕ) where
  -- The call of kmalloc_ap in paging.c.
  unfoldable pub early_kmalloc_ap :
      ℕ → Paging (Kernel Pages) → Result (ℕ × ℕ × Paging (Kernel Pages))
  early_kmalloc_ap size s = do
    (a, physical, k) ← kmalloc_ap map_page page_address size s.allocator
    ok (a, physical, record s { allocator = k })

  kmalloc_ap_before :
      (size : ℕ) (k : Kernel Pages)
      → k.kernel_heap ≡ none
      → kmalloc_ap map_page page_address size k
        ≡ ok (
          (linear_kmalloc k.mem_first_unused size true).0,
          (linear_kmalloc k.mem_first_unused size true).0,
          record k { mem_first_unused = (linear_kmalloc k.mem_first_unused size true).1 },
        )
  unfolding kmalloc_ap kmalloc_physical
  kmalloc_ap_before size k e = rw e refl

  -- Before the kernel heap exists, kmalloc_ap is such an allocator as the paging code needs: with
  -- 16 KiB of address space left for each block of 1 to 8196 bytes it hands out blocks that are
  -- not null and were not handed out before, and it leaves the state of paging.c alone.
  pub early_kmalloc_ap-IsAllocator : IsAllocator early_kmalloc_ap EarlyOwned EarlyRoom
  unfolding early_kmalloc_ap
  early_kmalloc_ap-IsAllocator = record {
    gives = λ size n s left some_size small.
        let first = s.allocator.mem_first_unused in
        let (low, high, aligned, next) = linear_kmalloc_lem first size true (omega arith) in
        let k : Kernel Pages = record s.allocator {
          mem_first_unused = (linear_kmalloc first size true).1;
        } in
        (
          (linear_kmalloc first size true).0,
          (linear_kmalloc first size true).0,
          record s { allocator = k },
          rw (kmalloc_ap_before size s.allocator left.0) refl,
          record {
            nonzero = λ e. omega arith;
            unused = λ old. omega arith;
            mine = omega (arith, next);
            kept = λ b old. omega arith;
            apart = refl;
            more = (left.0, omega arith, omega arith);
          },
        );
    fewer = λ k n left. (left.0, left.1, omega arith);
  }
