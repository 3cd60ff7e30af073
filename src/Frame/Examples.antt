-- ===== src/Frame/Examples.antt =====
-- The frame allocator at concrete inputs.
use evos.Base.{ℕ, zero, suc, ◌*◌, ◌^◌, ◌<◌, ◌≡◌, refl, ◌⊎◌, [], ◌∷◌, arith, ok, panic, get_or}
use evos.Bitset.{set_bit, find_free, scan_words, scan_word, check_set}
use evos.Bitset.Laws.{IsValid}
use evos.Bitset.Find.{AllUsed}
use evos.Frame.{FrameAllocator, frame_alloc, frame_free}
use evos.Frame.Laws.{
  in_use, IsAllocated, frame_alloc_lem, frame_free_lem, frame_free-IsValid, frame_alloc_beyond,
}

-- 32 frames in a word, of which memory has three; all three are in use
abbrev full : FrameAllocator
full = record { frames = record { base = 7 ∷ []; size = 1 }; num_frames = 3 }

abbrev full' : FrameAllocator
full' = record { frames = record { base = 15 ∷ []; size = 1 }; num_frames = 3 }

abbrev full'' : FrameAllocator
full'' = record { frames = record { base = 31 ∷ []; size = 1 }; num_frames = 3 }

abbrev full-IsValid : IsValid full.frames
full-IsValid = record { counted = refl; small = omega arith; words = words_small }
  where
    words_small : (k : ℕ) → get_or full.frames.base k 0 < 2 ^ 32
    words_small zero = omega arith
    words_small (suc k) = omega arith

first_call : frame_alloc full ≡ ok (3, full')
unfolding frame_alloc find_free scan_words scan_word check_set set_bit
first_call = refl

second_call : frame_alloc full' ≡ ok (4, full'')
unfolding frame_alloc find_free scan_words scan_word check_set set_bit
second_call = refl

frame_zero_stays : frame_free full 0 ≡ full
unfolding frame_free
frame_zero_stays = refl

frame_alloc_lem_example :
    ((frame_alloc full ≡ panic) × AllUsed full.frames (1 * 32))
    ⊎ ((frame : ℕ) × (a' : FrameAllocator) × (frame_alloc full ≡ ok (frame, a'))
        × IsAllocated full frame a')
frame_alloc_lem_example = frame_alloc_lem full full-IsValid

frame_free_lem_example : in_use (frame_free full 2) 2 ≡ 0
frame_free_lem_example = frame_free_lem full full-IsValid 2 2 (omega arith)

frame_free-IsValid_example : IsValid (frame_free full 2).frames
frame_free-IsValid_example = frame_free-IsValid full full-IsValid 2

frame_alloc_beyond_example : (a' : FrameAllocator) × (frame_alloc full ≡ ok (3, a'))
frame_alloc_beyond_example = frame_alloc_beyond full full-IsValid three_used refl (omega arith)
  where
    three_used : AllUsed full.frames 3
    three_used zero h = refl
    three_used (suc zero) h = refl
    three_used (suc (suc zero)) h = refl
    three_used (suc (suc (suc j))) h = absurd (omega arith)
