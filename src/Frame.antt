-- ===== src/Frame.antt =====
-- src/mm/frame.c: the frame allocator, a bitset of the physical frames in use.
pub mod Laws
mod Examples
use evos.Base.{ℕ, zero, ◌/◌, List, ◌==◌, if◌then◌else◌, Result, ok, panic, minus_one}
use evos.Bitset.{Bitset, create, set_bit, clear_bit, find_free}

abbrev pub page_size : ℕ
page_size = 4096

-- The static variables `frames` and `num_frames`.
pub record FrameAllocator : Type 0 where
  pub frames : Bitset
  pub num_frames : ℕ

-- `region` is the memory that `kmalloc` returns for the bitset.
unfoldable pub init_frames : List ℕ → ℕ → FrameAllocator
init_frames region total_memory = record {
  frames = create region (total_memory / page_size);
  num_frames = total_memory / page_size;
}

unfoldable pub frame_alloc : FrameAllocator → Result (ℕ × FrameAllocator)
frame_alloc a =
    let frame = find_free a.frames in
    if frame == minus_one then panic else ok (frame, record a { frames = set_bit a.frames frame })

-- Frame 0 stands for "no frame" and is not freed.
unfoldable pub frame_free : FrameAllocator → ℕ → FrameAllocator
frame_free a frame = if frame == 0 then a else record a { frames = clear_bit a.frames frame }
