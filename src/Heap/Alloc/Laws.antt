-- ===== src/Heap/Alloc/Laws.antt =====
-- `heap_alloc` on a hole of the index, without page alignment.
use mathlib.Core.List.{Perm, perm_middle, perm_append_singleton}
use mathlib.Core.List.Perm
use evos.Base.{
  ℕ, ◌+◌, ◌-◌, ◌^◌, ◌≤◌, ◌<◌, ◌≡◌, refl, ap, ◌∙◌, inl, inr, Bool, true, false, Result, List, [],
  ◌∷◌, ◌++◌, arith, ok, length, length-append, get_elem?-append_here, All, All-map, All-here,
  Bool-cases, leb, u32, ◌==◌, if◌then◌else◌, minus_one,
}
use evos.Base.Memory.{Bytes}
use evos.OrderedArray
use evos.OrderedArray.{OrderedArray}
use evos.OrderedArray.Order.{IsSorted}
use evos.OrderedArray.Laws.{Holds, index_lem, remove-append, insert-bubble, insert_max}
use evos.OrderedArray.Pass.{bubble, bubble-perm, length-bubble}
use evos.Heap.{Heap, size_at, header_t_cmp}
use evos.Heap.Search.{find_hole}
use evos.Heap.Search.Laws.{find_hole_first, IsBestFit, first-IsBestFit, unfit-lt}
use evos.Heap.Alloc.{block_size, take_hole, place_block, obtain_hole, heap_alloc}
use evos.Heap.Alloc.Place.{place_whole, place_split}
use evos.Heap.Alloc.Blocks.{
  SameOutside, block_written, write-IsBlock, write-SameOutside, Tiles, Tiles-le, Tiles-SameOutside,
  Tiles-append, IsBlock-SameOutside,
}

-- The hole at `a`, of the size in its header, lies between blocks that fill the heap.
pub record IsHoleAt {Pages : Type 0} (heap : Heap Pages) (a : ℕ) : Type 0 where
  pub front : List (ℕ × ℕ)
  pub back : List (ℕ × ℕ)
  pub before : Tiles heap.memory heap.allocated_start front a
  pub after : Tiles heap.memory (a + size_at heap.memory a) back heap.allocated_end

-- What a hole of `total` bytes becomes when `size` bytes are asked for: a block with room for them
-- between header and footer, and a hole unless that would have no room behind its own.
abbrev pub pieces : ℕ → ℕ → List (ℕ × ℕ)
pieces total size =
    if leb (total - (size + 20)) 20
    then (total, 0) ∷ []
    else (size + 20, 0) ∷ (total - (size + 20), 1) ∷ []

-- the addresses of the holes among them
abbrev pub new_holes : ℕ → ℕ → ℕ → List ℕ
new_holes a total size = if leb (total - (size + 20)) 20 then [] else (a + (size + 20)) ∷ []

-- What an allocation of `size` bytes has done: it took the hole at `addr`.
pub record IsServed {Pages : Type 0} (heap : Heap Pages) (xs : List ℕ) (size : ℕ)
    (heap' : Heap Pages) (addr : ℕ) : Type 0 where
  pub best : IsBestFit heap.memory (size + 20) xs addr
  pub hole : IsHoleAt heap addr
  pub tiles :
      Tiles heap'.memory heap'.allocated_start
        (hole.front ++ (pieces (size_at heap.memory addr) size ++ hole.back))
        heap'.allocated_end
  pub same_start : heap'.allocated_start ≡ heap.allocated_start
  pub same_end : heap'.allocated_end ≡ heap.allocated_end
  pub same : SameOutside addr (addr + size_at heap.memory addr) heap.memory heap'.memory
  pub holes : List ℕ
  pub held : Holds heap'.index holes
  pub same_max : heap'.index.max_size ≡ heap.index.max_size
  pub few : length holes ≤ length xs
  pub others : List ℕ
  pub taken : Perm xs (addr ∷ others)
  pub put_back : Perm holes (new_holes addr (size_at heap.memory addr) size ++ others)

module _ {Pages : Type 0} (map_page : ℕ → Bool → Bool → Pages → Result Pages) (heap : Heap Pages)
    (size : ℕ) (small : size + 20 < 2 ^ 32) (low : heap.allocated_end < 2 ^ 32) where
  module _ (before : List ℕ) (addr : ℕ) (after : List ℕ)
      (held : Holds heap.index (before ++ addr ∷ after))
      (found : find_hole heap.memory heap.index (size + 20) false ≡ ok (length before))
      (hole : IsHoleAt heap addr) (enough : size + 20 ≤ size_at heap.memory addr) where
    -- Up to the last part nothing but the index changes.
    reach_place :
        let removed = remove-append before addr after held in
        heap_alloc map_page heap size false
        ≡ place_block
            (record heap { index = removed.0 })
            addr
            (size_at heap.memory addr)
            (block_size (size_at heap.memory addr) (size + 20))
    unfolding heap_alloc obtain_hole take_hole
    reach_place =
        let removed = remove-append before addr after held in
        let wanted : u32 (size + 12 + 8) ≡ size + 20 = omega arith in
        let in_index : (length before == minus_one) ≡ false =
          ground (arith, held.small, held.capacity, length-append before (addr ∷ after)) in
        let read : OrderedArray.index heap.index (length before) ≡ ok addr =
          (index_lem (length before) held).0 addr (get_elem?-append_here before addr after) in
        rw (wanted, found, in_index, read, removed.1)

    abbrev total : ℕ
    total = size_at heap.memory addr

    inside : addr + total ≤ heap.allocated_end
    inside = Tiles-le heap.memory (addr + total) hole.back heap.allocated_end hole.after

    above : heap.allocated_start ≤ addr
    above = Tiles-le heap.memory heap.allocated_start hole.front addr hole.before

    -- The blocks in front of the hole and behind it stay as they are.
    around :
        (m' : Bytes) (middle : List (ℕ × ℕ))
        → SameOutside addr (addr + total) heap.memory m'
        → Tiles m' addr middle (addr + total)
        → Tiles m' heap.allocated_start (hole.front ++ (middle ++ hole.back)) heap.allocated_end
    around m' middle same mid =
        Tiles-append m' heap.allocated_start hole.front addr (middle ++ hole.back)
          heap.allocated_end
          (Tiles-SameOutside heap.memory m' addr (addr + total) heap.allocated_start hole.front addr
            same (inl (omega arith)) hole.before)
          (Tiles-append m' addr middle (addr + total) hole.back heap.allocated_end mid (
            Tiles-SameOutside heap.memory m' addr (addr + total) (addr + total) hole.back
              heap.allocated_end same (inr (omega arith)) hole.after))

    whole_size : leb (total - (size + 20)) 20 ≡ true → block_size total (size + 20) ≡ total
    unfolding block_size
    whole_size tight = ground (arith, inside)

    split_size : leb (total - (size + 20)) 20 ≡ false → block_size total (size + 20) ≡ size + 20
    unfolding block_size
    split_size loose = ground (arith, inside)

    -- Too little would be left over: the block takes the whole hole.
    serve_whole :
        leb (total - (size + 20)) 20 ≡ true
        → IsBestFit heap.memory (size + 20) (before ++ addr ∷ after) addr
        → (heap' : Heap Pages) × (heap_alloc map_page heap size false ≡ ok (addr + 12, heap'))
          × IsServed heap (before ++ addr ∷ after) size heap' addr
    serve_whole tight best =
        let removed = remove-append before addr after held in
        let m' = block_written heap.memory addr total 0 in
        let room : 20 ≤ total = omega arith in
        let fits : addr + total < 2 ^ 32 = omega (arith, inside) in
        let same = write-SameOutside heap.memory addr total 0 room fits in
        (
          record heap { index = removed.0; memory = m' },
          reach_place
              ∙ ap (place_block (record heap { index = removed.0 }) addr total) (whole_size tight)
              ∙ place_whole (record heap { index = removed.0 }) addr total total fits inside room
                  (omega arith) refl,
          record {
            best = best;
            hole = hole;
            tiles = rw tight (
                around m' ((total, 0) ∷ []) same
                  (write-IsBlock heap.memory addr total 0 room fits (omega arith), refl));
            same_start = refl;
            same_end = refl;
            same = same;
            holes = before ++ after;
            held = removed.2;
            same_max = removed.3;
            few = omega (arith, length-append before (addr ∷ after), length-append before after);
            others = before ++ after;
            taken = perm_middle before after;
            put_back = rw tight (Perm.refl (before ++ after));
          },
        )

    -- Otherwise a hole stays behind the block.
    serve_split :
        leb (total - (size + 20)) 20 ≡ false
        → IsBestFit heap.memory (size + 20) (before ++ addr ∷ after) addr
        → (heap' : Heap Pages) × (heap_alloc map_page heap size false ≡ ok (addr + 12, heap'))
          × IsServed heap (before ++ addr ∷ after) size heap' addr
    serve_split loose best =
        let more : size + 20 + 20 < total = ground arith in
        let fits : addr + total < 2 ^ 32 = omega (arith, inside) in
        let removed = remove-append before addr after held in
        let m = block_written heap.memory addr (size + 20) 0 in
        let right = addr + (size + 20) in
        let rest = total - (size + 20) in
        let m' = block_written m right rest 1 in
        let same = write-SameOutside heap.memory addr (size + 20) 0 (omega arith) (omega arith) in
        let same' = write-SameOutside m right rest 1 (omega arith) (omega arith) in
        let block = write-IsBlock heap.memory addr (size + 20) 0 (omega arith) (omega arith) in
        let behind = write-IsBlock m right rest 1 (omega arith) (omega arith) (omega arith) in
        let inserted = insert-bubble (header_t_cmp m') right (before ++ after) removed.2 (
          omega (
            arith,
            held.capacity,
            removed.3,
            length-append before (addr ∷ after),
            length-append before after,
          )) in
        let outside : SameOutside addr (addr + total) heap.memory m' =
          λ q h. same' q (omega arith) ∙ same q (omega arith) in
        (
          record heap { index = inserted.0; memory = m' },
          reach_place
              ∙ ap (place_block (record heap { index = removed.0 }) addr total) (split_size loose)
              ∙ place_split (record heap { index = removed.0 }) addr total (size + 20) fits inside
                  (omega arith) enough inserted.0 more inserted.1,
          record {
            best = best;
            hole = hole;
            tiles = rw loose (
                around m' ((size + 20, 0) ∷ (rest, 1) ∷ []) outside (
                  IsBlock-SameOutside right (right + rest) same' (inl (omega arith))
                      (block (omega arith)),
                  (behind, omega arith),
                ));
            same_start = refl;
            same_end = refl;
            same = outside;
            holes = bubble (header_t_cmp m') ((before ++ after) ++ right ∷ []);
            held = inserted.2;
            same_max =
                insert_max (header_t_cmp m') removed.0 right inserted.0 inserted.1 ∙ removed.3;
            few = omega (
              arith,
              length-bubble (header_t_cmp m') ((before ++ after) ++ right ∷ []),
              length-append (before ++ after) (right ∷ []),
              length-append before (addr ∷ after),
              length-append before after,
            );
            others = before ++ after;
            taken = perm_middle before after;
            put_back = rw loose (
                Perm.trans (bubble-perm (header_t_cmp m') ((before ++ after) ++ right ∷ []))
                  (perm_append_singleton right (before ++ after)));
          },
        )

    serve :
        IsBestFit heap.memory (size + 20) (before ++ addr ∷ after) addr
        → (heap' : Heap Pages) × (heap_alloc map_page heap size false ≡ ok (addr + 12, heap'))
          × IsServed heap (before ++ addr ∷ after) size heap' addr
    serve best = elim (Bool-cases (leb (total - (size + 20)) 20)) [
      | inl tight ↦ serve_whole tight best
      | inr loose ↦ serve_split loose best
    ]

  -- In a heap whose index holds, in the order of their sizes, holes that lie between blocks, one of
  -- which has room for the bytes with a header and a footer, `heap_alloc` without page alignment
  -- succeeds. It takes one of the smallest such holes, returns the address behind its header, makes
  -- of it a block and, if more than a header and a footer is left over, a hole behind the block; it
  -- writes to no other byte, the blocks still fill the heap, and the index holds the other holes and
  -- the new one.
  pub heap_alloc-IsServed :
      (xs : List ℕ)
      → Holds heap.index xs
      → IsSorted (header_t_cmp heap.memory) xs
      → All (IsHoleAt heap) xs
      → ¬ All (λ a. size_at heap.memory a < size + 20) xs
      → (addr : ℕ) × (heap' : Heap Pages) × (heap_alloc map_page heap size false
          ≡ ok (addr + 12, heap'))
        × IsServed heap xs size heap' addr
  heap_alloc-IsServed xs held sorted holes some_fit =
      elim (find_hole_first heap.memory (size + 20) false heap.index held) [
        | inl (_, unfit) ↦
            absurd (some_fit (All-map _ _ xs (unfit-lt heap.memory (size + 20)) unfit))
        | inr (before, addr, after, e, found, fit, unfit) ↦
            let held' : Holds heap.index (before ++ addr ∷ after) = rw e at held in
            let hole : IsHoleAt heap addr =
              All-here (IsHoleAt heap) before addr after (rw e at holes) in
            let best =
              first-IsBestFit heap.memory (size + 20) before addr after (rw e at sorted) fit
                unfit in
            let done = serve before addr after held' found hole best.0 best in
            (addr, done.0, done.1, rw e done.2)
      ]
