-- ===== src/Paging/Identity/Examples.antt =====
-- A kernel that ends at 0x110000.
use evos.Base.{
  ℕ, ◌+◌, ◌/◌, ◌%◌, ◌^◌, ◌≤◌, ◌<◌, ◌≡◌, ◌≢◌, refl, sym, ap, Bool, Option, none, some, Result, ok,
  [], arith, get_or, replicate, length-replicate, get_or-replicate, ok_injective,
}
use evos.Base.Bits.{bit-zero}
use evos.Frame.{FrameAllocator}
use evos.Frame.Laws.{in_use}
use evos.Kmalloc.{Kernel, linear_kmalloc, kmalloc_physical, kmalloc_ap}
use evos.Paging.{zero_directory, Paging}
use evos.Paging.Access.{translate}
use evos.Paging.Init.{identity_map}
use evos.Paging.Early.{EarlyOwned, EarlyRoom, early_kmalloc_ap, early_kmalloc_ap-IsAllocator}
use evos.Paging.Identity.{IsUnused, pages_below, identity_map_lem}

abbrev no_pages : ℕ → Bool → Bool → Unit {0} → Result (Unit {0})
no_pages addr kernel_mode writeable p = ok p

abbrev no_address : Unit {0} → ℕ → Option ℕ
no_address p address = none

abbrev first_unused : Kernel (Unit {0}) → ℕ
first_unused k = k.mem_first_unused

-- 1024 frames
abbrev all_frames : FrameAllocator
all_frames = record { frames = record { base = replicate 32 0; size = 32 }; num_frames = 1024 }

abbrev start : Paging (Kernel (Unit {0}))
start = record {
  allocator = record { kernel_heap = none; mem_first_unused = 0x110000 };
  frames = all_frames;
  table_at = λ a. [];
  directory_at = λ a. zero_directory;
  kernel_directory = 0x10C000;
  current_directory = 0;
  cloning_buffer_page = none;
  ram = λ f k. 0;
}

all_frames-IsUnused : IsUnused all_frames
all_frames-IsUnused = record {
  valid = record {
    counted = sym (length-replicate {A = ℕ} 32 0);
    small = omega arith;
    words = λ k. omega (arith, get_or-replicate {A = ℕ} 32 k 0);
  };
  few = omega arith;
  enough = omega arith;
  free = λ j. rw (get_or-replicate {A = ℕ} 32 (j / 32) 0) (bit-zero (j % 32));
}

within :
    (fresh physical : ℕ) (t : Paging (Kernel (Unit {0})))
    → early_kmalloc_ap no_pages no_address 4096 start ≡ ok (fresh, physical, t)
    → first_unused t.allocator + 16384 ≤ 2 ^ 22
unfolding early_kmalloc_ap kmalloc_ap kmalloc_physical linear_kmalloc
within fresh physical t e =
    let last : t.allocator.mem_first_unused ≡ 0x111000 =
      ap (λ (x : ℕ × ℕ × Paging (Kernel (Unit {0}))). x.2.allocator.mem_first_unused)
        (sym (ok_injective e)) in
    omega arith

identity_map_lem_example :
    (s' : Paging (Kernel (Unit {0}))) × (identity_map
        (early_kmalloc_ap no_pages no_address)
        first_unused
        (2 ^ 20)
        0
        0x10C000
        start
      ≡ ok s')
    × ((address : ℕ)
        → address < first_unused s'.allocator + 16384
        → translate s' 0x10C000 address ≡ some (address / 4096))
    × ((j : ℕ)
        → (j < pages_below (first_unused s'.allocator + 16384) → in_use s'.frames j ≡ 1)
          × (pages_below (first_unused s'.allocator + 16384) ≤ j → in_use s'.frames j ≡ 0))
    × ((i : ℕ)
        → i ≢ 0
        → get_or (s'.directory_at 0x10C000).tables i 0 ≡ get_or zero_directory.tables i 0)
identity_map_lem_example =
    identity_map_lem (early_kmalloc_ap no_pages no_address) EarlyOwned EarlyRoom
      (early_kmalloc_ap-IsAllocator no_pages no_address) first_unused start 0x10C000 (2 ^ 20)
      (refl, omega arith, omega arith) (length-replicate {A = ℕ} 1024 0)
      (get_or-replicate {A = ℕ} 1024 0 0) all_frames-IsUnused (omega arith) within (omega arith)
