-- ===== src/Paging/Alloc.antt =====
-- Pages and their frames.
use evos.Base.{
  ℕ, ◌*◌, ◌%◌, ◌^◌, ◌≤◌, ◌≡◌, ◌≢◌, refl, sym, ap, ◌∙◌, ◌⊎◌, inl, inr, Bool, true, false, ok, panic,
  arith,
}
use evos.Bitset.Laws.{IsValid}
use evos.Bitset.Find.{AllUsed}
use evos.Frame.{FrameAllocator, frame_alloc, frame_free}
use evos.Frame.Laws.{in_use, IsAllocated, frame_alloc_lem, frame_free-frame_alloc}
use evos.Paging.{Page, page_alloc, page_free}

-- A page that has been given a frame.
abbrev pub with_frame : Page → Bool → ℕ → Page
with_frame page writeable frame = record page {
  present = true;
  writeable = writeable;
  user_mode = true;
  address = frame;
}

module _ (frames : FrameAllocator) (page : Page) (kernel_mode writeable : Bool)
    (v : IsValid frames.frames) (small : frames.frames.size ≤ 2 ^ 15) where
  -- With a valid bitset of at most 2 ^ 20 frames, page_alloc leaves a page alone that has a frame
  -- other than 0; to any other page it gives the least free frame, which it marks and no other, and
  -- makes it present and open to user mode whatever was asked for; it panics exactly when all frames
  -- are in use.
  pub page_alloc_lem :
      (page.address ≢ 0 → page_alloc frames page kernel_mode writeable ≡ ok (page, frames))
      × (page.address ≡ 0
          → ((page_alloc frames page kernel_mode writeable ≡ panic)
              × AllUsed frames.frames (frames.frames.size * 32))
            ⊎ ((frame : ℕ) × (frames' : FrameAllocator) × (page_alloc frames page kernel_mode
                    writeable
                  ≡ ok (with_frame page writeable frame, frames'))
                × IsAllocated frames frame frames'))
  unfolding page_alloc
  page_alloc_lem = (
    λ ne. ground arith,
    λ z. elim (frame_alloc_lem frames v) [
      | inl (e, all) ↦ inl (rw (z, e) refl, all)
      | inr (frame, frames', e, done) ↦
          let whole : frame % 2 ^ 20 ≡ frame = omega (arith, done.first.in_range) in
          inr (frame, frames', rw (z, e, whole) refl, done)
    ],
  )

  page_alloc_ok :
      (page' : Page) (frames' : FrameAllocator)
      → page.address ≡ 0
      → page_alloc frames page kernel_mode writeable ≡ ok (page', frames')
      → (frame : ℕ) × (frame_alloc frames ≡ ok (frame, frames'))
        × (page' ≡ with_frame page writeable frame)
        × IsAllocated frames frame frames'
  unfolding page_alloc
  page_alloc_ok page' frames' z e = elim (frame_alloc_lem frames v) [
    | inl (none_free, all) ↦
        let stops : page_alloc frames page kernel_mode writeable ≡ panic = rw (z, none_free) refl in
        absurd (cc)
    | inr (frame, frames'', taken, done) ↦
        let whole : frame % 2 ^ 20 ≡ frame = omega (arith, done.first.in_range) in
        let goes : page_alloc frames page kernel_mode writeable
            ≡ ok (with_frame page writeable frame, frames'') =
          rw (z, taken, whole) refl in
        let same : frames'' ≡ frames' = cc in
        let page_same : page' ≡ with_frame page writeable frame = cc in
        (frame, rw (sym same) taken, page_same, rw (sym same) done)
  ]

  -- A page that had no frame, is given a frame other than 0 and is freed has no frame and is not
  -- present, and every frame is in use that was before, and no other.
  pub page_free-page_alloc :
      (page' : Page) (frames' : FrameAllocator)
      → page.address ≡ 0
      → page_alloc frames page kernel_mode writeable ≡ ok (page', frames')
      → page'.address ≢ 0
      → ((page_free frames' page').0.address ≡ 0)
        × ((page_free frames' page').0.present ≡ false)
        × ((j : ℕ) → in_use (page_free frames' page').1 j ≡ in_use frames j)
  unfolding page_free page_alloc
  page_free-page_alloc page' frames' z e ne =
      let (frame, taken, same, done) = page_alloc_ok page' frames' z e in
      let held : page'.address ≡ frame = ap (λ (p : Page). p.address) same in
      (
        refl,
        refl,
        λ j.
            ap (λ (f : ℕ). in_use (frame_free frames' f) j) held
            ∙ frame_free-frame_alloc frames frames' frame j v (λ f. ne (held ∙ f)) taken,
      )

-- Frame 0 also stands for no frame: a page that is given frame 0 is given another frame when it is
-- allocated again, and frame 0 stays in use.
pub page_alloc_frame_zero :
    (frames frames' : FrameAllocator) (page page' : Page) (kernel_mode writeable : Bool)
    → IsValid frames.frames
    → frames.frames.size ≤ 2 ^ 15
    → page.address ≡ 0
    → page_alloc frames page kernel_mode writeable ≡ ok (page', frames')
    → in_use frames 0 ≡ 0
    → (page'.present ≡ true)
      × (page'.address ≡ 0)
      × (in_use frames' 0 ≡ 1)
      × ((page'' : Page) (frames'' : FrameAllocator)
          → page_alloc frames' page' kernel_mode writeable ≡ ok (page'', frames'')
          → (page''.address ≢ 0) × (in_use frames'' 0 ≡ 1))
page_alloc_frame_zero frames frames' page page' kernel_mode writeable v small z e free =
    let (frame, taken, same, done) =
      page_alloc_ok frames page kernel_mode writeable v small page' frames' z e in
    let zero_frame : frame ≡ 0 = ground (arith, done.first.below 0, free) in
    let address : page'.address ≡ 0 = ap (λ (p : Page). p.address) same ∙ zero_frame in
    let zero_taken : in_use frames' 0 ≡ 1 = rw zero_frame at done.taken in
    (
      ap (λ (p : Page). p.present) same,
      address,
      zero_taken,
      λ page'' frames'' again.
          let (frame', taken', same', done') =
            page_alloc_ok frames' page' kernel_mode writeable done.valid
              (omega (arith, done.same_size)) page'' frames'' address again in
          let other : frame' ≢ 0 =
            λ f. omega (arith, done'.first.free, ap (in_use frames') f, zero_taken) in
          (
            λ f. other (sym (ap (λ (p : Page). p.address) same') ∙ f),
            done'.others 0 (λ f. other (sym f)) ∙ zero_taken,
          ),
    )
