-- ===== src/Paging/Examples.antt =====
-- Pages, tables and directories at concrete inputs.
use evos.Base.{
  ℕ, zero, suc, sym, ◌∙◌, ◌^◌, ◌<◌, ◌≡◌, ◌≢◌, refl, Bool, true, false, Option, none, some, Result,
  ok, [], ◌∷◌, arith, replicate, get_or, length-replicate, get_or-replicate,
}
use evos.Bitset.{set_bit, find_free, scan_words, scan_word, check_set}
use evos.Bitset.Laws.{IsValid}
use evos.Frame.{FrameAllocator, frame_alloc}
use evos.Frame.Laws.{in_use}
use evos.Kmalloc.{Kernel}
use evos.Paging.{Page, zero_page, PagePtr, PageDirectory, Paging, page_alloc, get_page}
use evos.Paging.Alloc.{with_frame, page_alloc_frame_zero}
use evos.Paging.Laws.{IsDirectory, IsFound, get_page-IsFound}
use evos.Paging.Early.{EarlyOwned, EarlyRoom, early_kmalloc_ap, early_kmalloc_ap-IsAllocator}

abbrev no_pages : ℕ → Bool → Bool → Unit {0} → Result (Unit {0})
no_pages addr kernel_mode writeable p = ok p

abbrev no_address : Unit {0} → ℕ → Option ℕ
no_address p address = none

abbrev early : Kernel (Unit {0})
early = record { kernel_heap = none; mem_first_unused = 0x110000 }

-- 32 frames, the first two in use.
abbrev two_frames : FrameAllocator
two_frames = record { frames = record { base = 3 ∷ []; size = 1 }; num_frames = 32 }

-- A directory at 0x100000 with one table, at 0x101000, for the addresses from 4 MiB on.
abbrev directory : PageDirectory
directory = record {
  tables = 0 ∷ 0x101000 ∷ replicate 1022 0;
  tables_physical_addr = 0 ∷ 0x101007 ∷ replicate 1022 0;
  ismeta_tables_physical_addr = 0x101000;
}

abbrev state : Paging (Kernel (Unit {0}))
state = record {
  allocator = early;
  frames = two_frames;
  table_at = λ a. [];
  directory_at = λ a. directory;
  kernel_directory = 0x100000;
  current_directory = 0x100000;
  cloning_buffer_page = none;
  ram = λ f k. 0;
}

entry_one : (i : ℕ) → get_or directory.tables i 0 ≢ 0 → i ≡ 1
entry_one zero ne = absurd (ne refl)
entry_one (suc zero) ne = refl
entry_one (suc (suc i)) ne = absurd (ne (get_or-replicate {A = ℕ} 1022 i 0))

directory-IsDirectory :
    IsDirectory (early_kmalloc_ap no_pages no_address) EarlyOwned EarlyRoom early directory
directory-IsDirectory = record {
  size = omega (arith, length-replicate {A = ℕ} 1022 0);
  handed_out = λ i ne. rw (entry_one i ne) (omega arith);
  different = λ i j ne same. entry_one i ne ∙ sym (entry_one j (λ z. ne (same ∙ z)));
}

get_page-IsFound_example :
    (ptr : PagePtr) × (s : Paging (Kernel (Unit {0}))) × (get_page
        (early_kmalloc_ap no_pages no_address)
        0xF0000000
        true
        0x100000
        state
      ≡ ok (some ptr, s))
    × IsFound
        (early_kmalloc_ap no_pages no_address)
        EarlyOwned
        EarlyRoom
        state
        0x100000
        0xF0000000
        ptr
        s
get_page-IsFound_example =
    get_page-IsFound (early_kmalloc_ap no_pages no_address) EarlyOwned EarlyRoom state 0x100000
      0xF0000000 (early_kmalloc_ap-IsAllocator no_pages no_address) (refl, omega arith, omega arith)
      directory-IsDirectory (omega arith)

two_frames-IsValid : IsValid two_frames.frames
two_frames-IsValid = record { counted = refl; small = omega arith; words = words_small }
  where
    words_small : (k : ℕ) → get_or two_frames.frames.base k 0 < 2 ^ 32
    words_small zero = omega arith
    words_small (suc k) = omega arith

-- The third frame is taken.
abbrev three_frames : FrameAllocator
three_frames = record { frames = record { base = 7 ∷ []; size = 1 }; num_frames = 32 }

-- No frame in use, and frame 0.
abbrev no_frames : FrameAllocator
no_frames = record { frames = record { base = 0 ∷ []; size = 1 }; num_frames = 32 }

abbrev one_frame : FrameAllocator
one_frame = record { frames = record { base = 1 ∷ []; size = 1 }; num_frames = 32 }

no_frames-IsValid : IsValid no_frames.frames
no_frames-IsValid = record { counted = refl; small = omega arith; words = words_small }
  where
    words_small : (k : ℕ) → get_or no_frames.frames.base k 0 < 2 ^ 32
    words_small zero = omega arith
    words_small (suc k) = omega arith

page_alloc_frame_zero_example :
    (◌≡◌ true true)
    × (◌≡◌ {A = ℕ} 0 0)
    × (in_use one_frame 0 ≡ 1)
    × ((page : Page) (frames : FrameAllocator)
        → page_alloc one_frame (with_frame zero_page true 0) false true ≡ ok (page, frames)
        → (page.address ≢ 0) × (in_use frames 0 ≡ 1))
unfolding page_alloc frame_alloc find_free scan_words scan_word check_set set_bit
page_alloc_frame_zero_example =
    page_alloc_frame_zero no_frames one_frame zero_page (with_frame zero_page true 0) false true
      no_frames-IsValid (omega arith) refl refl refl
