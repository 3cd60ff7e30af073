-- ===== src/Frame/Laws.antt =====
-- What the frame allocator promises.
use evos.Base.{
  ℕ, ◌*◌, ◌<◌, ◌≡◌, ◌≢◌, ap, ◌⊎◌, inl, inr, arith, ok, panic, ◌==◌, false, minus_one, Bool-cases,
  if◌then◌else◌, ltb, ◌&&◌,
}
use evos.Bitset.{Bitset, set_bit, find_free}
use evos.Bitset.Laws.{
  digit, IsValid, digit-set_bit, digit-clear_bit, set_bit-IsValid, clear_bit-IsValid,
}
use evos.Bitset.Find.{AllUsed, IsFirstFree, find_free_first}
use evos.Frame.{FrameAllocator, frame_alloc, frame_free}

-- 1 for a frame in use, 0 for a free one
abbrev pub in_use : FrameAllocator → ℕ → ℕ
in_use a i = digit a.frames i

-- what an allocation that succeeds has done
pub record IsAllocated (a : FrameAllocator) (frame : ℕ) (a' : FrameAllocator) : Type 0 where
  pub first : IsFirstFree a.frames (a.frames.size * 32) frame
  pub taken : in_use a' frame ≡ 1
  pub others : (j : ℕ) → j ≢ frame → in_use a' j ≡ in_use a j
  pub valid : IsValid a'.frames
  pub same_size : a'.frames.size ≡ a.frames.size

size-set_bit : (s : Bitset) (i : ℕ) → (set_bit s i).size ≡ s.size
unfolding set_bit
size-set_bit s i = ground arith

module _ (a : FrameAllocator) (v : IsValid a.frames) where
  alloc_of_first :
      (frame : ℕ)
      → IsFirstFree a.frames (a.frames.size * 32) frame
      → IsAllocated a frame (record a { frames = set_bit a.frames frame })
  alloc_of_first frame first = record {
    first = first;
    taken = ground (arith, digit-set_bit v frame frame, first.in_range);
    others = λ j ne. ground (arith, digit-set_bit v frame j);
    valid = set_bit-IsValid v frame;
    same_size = size-set_bit a.frames frame;
  }

  -- `frame_alloc` hands out the least free frame and marks it, and no other, as used; it panics
  -- exactly when every frame of the bitset is in use.
  pub frame_alloc_lem :
      ((frame_alloc a ≡ panic) × AllUsed a.frames (a.frames.size * 32))
      ⊎ ((frame : ℕ) × (a' : FrameAllocator) × (frame_alloc a ≡ ok (frame, a'))
          × IsAllocated a frame a')
  unfolding frame_alloc
  frame_alloc_lem = elim (find_free_first v) [
    | inl (none_free, used) ↦ inl (rw none_free, used)
    | inr first ↦
        let small : (find_free a.frames == minus_one) ≡ false =
          ground (arith, first.in_range, v.small) in
        inr (
          find_free a.frames,
          record a { frames = set_bit a.frames (find_free a.frames) },
          rw small,
          alloc_of_first (find_free a.frames) first,
        )
  ]

  -- Freeing a frame other than frame 0 makes it free and changes no other; frame 0 stays in use.
  pub frame_free_lem :
      (frame j : ℕ)
      → frame < 32 * a.frames.size
      → in_use (frame_free a frame) j ≡ (if j == frame && ltb 0 frame then 0 else in_use a j)
  unfolding frame_free
  frame_free_lem frame j h = ground (arith, digit-clear_bit v frame j)

  pub frame_free-IsValid : (frame : ℕ) → IsValid (frame_free a frame).frames
  unfolding frame_free
  frame_free-IsValid frame = elim (Bool-cases (frame == 0)) [
    | inl z ↦ rw z v
    | inr nz ↦ rw nz (clear_bit-IsValid v frame)
  ]

  -- An allocation that succeeds is one of the second kind.
  pub frame_alloc_ok :
      (frame : ℕ) (a' : FrameAllocator) → frame_alloc a ≡ ok (frame, a') → IsAllocated a frame a'
  frame_alloc_ok frame a' p = elim frame_alloc_lem [
    | inl (e, _) ↦ cc
    | inr (f, b, e, done) ↦
        let same : f ≡ frame = cc in let same' : b ≡ a' = cc in rw same' at (rw same at done)
  ]

-- Two allocations in a row never hand out the same frame.
pub frame_alloc_twice :
    (a a' a'' : FrameAllocator) (i j : ℕ)
    → IsValid a.frames
    → frame_alloc a ≡ ok (i, a')
    → frame_alloc a' ≡ ok (j, a'')
    → i ≢ j
frame_alloc_twice a a' a'' i j v p q same =
    let one = frame_alloc_ok a v i a' p in
    let two = frame_alloc_ok a' one.valid j a'' q in
    ground (arith, two.first.free, one.taken, ap (in_use a') same)

-- A frame that is allocated and then freed leaves every frame as it was, unless it is frame 0.
pub frame_free-frame_alloc :
    (a a' : FrameAllocator) (i j : ℕ)
    → IsValid a.frames
    → i ≢ 0
    → frame_alloc a ≡ ok (i, a')
    → in_use (frame_free a' i) j ≡ in_use a j
frame_free-frame_alloc a a' i j v ne p =
    let done = frame_alloc_ok a v i a' p in
    ground (
      arith,
      frame_free_lem a' done.valid i j,
      done.others j,
      done.first.free,
      done.first.in_range,
      done.same_size,
      ap (in_use a) {x = i} {y = j},
    )

-- The allocator looks at the digits of the last word behind `num_frames` too: when the frames
-- below `num_frames` are in use and that one is not, it hands out frame `num_frames`, which no
-- memory stands behind.
pub frame_alloc_beyond :
    (a : FrameAllocator)
    → IsValid a.frames
    → AllUsed a.frames a.num_frames
    → in_use a a.num_frames ≡ 0
    → a.num_frames < a.frames.size * 32
    → (a' : FrameAllocator) × (frame_alloc a ≡ ok (a.num_frames, a'))
frame_alloc_beyond a v used free room = elim (frame_alloc_lem a v) [
  | inl (_, all) ↦ absurd (omega (arith, all a.num_frames room))
  | inr (frame, a', e, done) ↦
      let here : frame ≡ a.num_frames =
        ground (arith, used frame, done.first.free, done.first.below a.num_frames, free) in
      (a', rw here at e)
]
