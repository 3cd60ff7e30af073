-- ===== src/Heap/Grow/Laws.antt =====
-- What `expand` does.
use evos.Base.{
  ℕ, zero, suc, ◌+◌, ◌-◌, ◌*◌, ◌/◌, ◌%◌, ◌^◌, ◌≤◌, ◌<◌, ◌≡◌, refl, true, false, not, Bool,
  Bool-cases, inl, inr, List, [], ◌∷◌, Result, ok, panic, ◌>>=◌, second_part, arith, u32, sub32,
  ltb, leb,
}
use evos.Heap.{Heap}
use evos.Heap.Grow.{round_up_to_page, map_pages, expand}

-- The next multiple of the page size, for a size that is not within a page of 2 ^ 32.
round_up_to_page_lem :
    (n : ℕ)
    → n + 4096 < 2 ^ 32
    → (round_up_to_page n % 4096 ≡ 0) × (n ≤ round_up_to_page n) × (round_up_to_page n < n + 4096)
unfolding round_up_to_page
round_up_to_page_lem n h = (ground arith, ground arith, ground arith)

-- The addresses of `count` pages from `a` on.
abbrev pub pages_from : ℕ → ℕ → List ℕ
pages_from a zero = []
pages_from a (suc count) = a ∷ pages_from (a + 4096) count

module _ {Pages : Type 0} (map_page : ℕ → Bool → Bool → Pages → Result Pages) where
  -- The pages at a list of addresses, one after the other, with the same two flags.
  abbrev pub map_each : Bool → Bool → List ℕ → Pages → Result Pages
  map_each kernel_mode writeable [] p = ok p
  map_each kernel_mode writeable (a ∷ addresses) p =
      map_page a kernel_mode writeable p >>= map_each kernel_mode writeable addresses

  map_pages-map_each :
      (count a : ℕ) (kernel_mode writeable : Bool) (p : Pages)
      → map_pages map_page count a kernel_mode writeable p
        ≡ map_each kernel_mode writeable (pages_from a count) p
  unfolding map_pages
  map_pages-map_each zero a kernel_mode writeable p = refl
  map_pages-map_each (suc count) a kernel_mode writeable p =
      second_part (map_page a kernel_mode writeable p)
        (λ p'. map_pages map_page count (a + 4096) kernel_mode writeable p')
        (map_each kernel_mode writeable (pages_from (a + 4096) count))
        (λ p'. map_pages-map_each count (a + 4096) kernel_mode writeable p')

  module _ (heap : Heap Pages) (n : ℕ) (small : heap.allocated_start + n + 4096 < 2 ^ 32)
      (order : heap.allocated_start ≤ heap.allocated_end) (low : heap.allocated_end < 2 ^ 32) where
    too_small :
        heap.allocated_start + round_up_to_page n ≤ heap.allocated_end
        → expand map_page heap n ≡ panic
    unfolding expand
    too_small less =
        let rounded = round_up_to_page_lem n (omega arith) in
        let no_more : ltb (sub32 heap.allocated_end heap.allocated_start) (round_up_to_page n)
            ≡ false =
          ground arith in
        rw no_more refl

    past_limit :
        heap.max_addr < heap.allocated_start + round_up_to_page n → expand map_page heap n ≡ panic
    unfolding expand
    past_limit far =
        let rounded = round_up_to_page_lem n (omega arith) in
        let over : leb (u32 (heap.allocated_start + round_up_to_page n)) heap.max_addr ≡ false =
          ground arith in
        elim (Bool-cases
          (ltb (sub32 heap.allocated_end heap.allocated_start) (round_up_to_page n))) [
            | inl more ↦ rw (more, over) refl
            | inr less ↦ rw less refl
          ]

    -- Between the two checks and the record update stand the pages.
    maps :
        (count : ℕ)
        → heap.allocated_end < heap.allocated_start + round_up_to_page n
        → heap.allocated_start + round_up_to_page n ≤ heap.max_addr
        → count
          ≡ (round_up_to_page n - (heap.allocated_end - heap.allocated_start) + 4096 - 1) / 4096
        → expand map_page heap n ≡ (
            map_each
              (not heap.pages_user_mode)
              heap.pages_writeable
              (pages_from heap.allocated_end count)
              heap.pages
            >>= λ p. ok (record heap {
              allocated_end = heap.allocated_start + round_up_to_page n;
              pages = p;
            }))
    unfolding expand
    maps count grows within number =
        let rounded = round_up_to_page_lem n (omega arith) in
        let old : sub32 heap.allocated_end heap.allocated_start
            ≡ heap.allocated_end - heap.allocated_start =
          omega arith in
        let more : ltb (heap.allocated_end - heap.allocated_start) (round_up_to_page n) ≡ true =
          ground arith in
        let end : u32 (heap.allocated_start + round_up_to_page n)
            ≡ heap.allocated_start + round_up_to_page n =
          omega arith in
        let fits : leb (heap.allocated_start + round_up_to_page n) heap.max_addr ≡ true =
          ground arith in
        let first : heap.allocated_start + (heap.allocated_end - heap.allocated_start)
            ≡ heap.allocated_end =
          omega arith in
        let each =
          map_pages-map_each count heap.allocated_end (not heap.pages_user_mode)
            heap.pages_writeable heap.pages in
        rw (old, more, end, fits, first, ← number, each) refl

    -- What `expand` does in a heap whose bounds and the size asked for stay below 2 ^ 32 by a page. The size
    -- is rounded up to pages. If the heap would not get larger, or would end past its limit, it
    -- panics. Otherwise it maps, one after the other from the old end on, as many pages as it takes
    -- to reach the new end, each writeable or not as the heap's flag says and for the kernel exactly
    -- if the heap's pages are not for user mode; if they are mapped, the heap ends at its start plus
    -- the rounded size and has the new pages, and nothing else in it has changed; if one of them
    -- ends in a panic or a fault, so does `expand`.
    pub expand_lem :
        (size : ℕ) × (size % 4096 ≡ 0)
        × (n ≤ size)
        × (size < n + 4096)
        × (heap.allocated_start + size ≤ heap.allocated_end → expand map_page heap n ≡ panic)
        × (heap.max_addr < heap.allocated_start + size → expand map_page heap n ≡ panic)
        × (heap.allocated_end < heap.allocated_start + size
            → heap.allocated_start + size ≤ heap.max_addr
            → (count : ℕ) × (heap.allocated_start + size ≤ heap.allocated_end + 4096 * count)
              × (heap.allocated_end + 4096 * count < heap.allocated_start + size + 4096)
              × (expand map_page heap n ≡ (
                  map_each
                    (not heap.pages_user_mode)
                    heap.pages_writeable
                    (pages_from heap.allocated_end count)
                    heap.pages
                  >>= λ p.
                      ok (record heap { allocated_end = heap.allocated_start + size; pages = p }))))
    expand_lem =
        let (whole, above, near) = round_up_to_page_lem n (omega arith) in
        (
          round_up_to_page n,
          whole,
          above,
          near,
          too_small,
          past_limit,
          λ grows within.
              let count =
                (round_up_to_page n - (heap.allocated_end - heap.allocated_start) + 4096 - 1)
                / 4096 in
              (count, omega arith, omega arith, maps count grows within refl),
        )
