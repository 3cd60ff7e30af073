-- ===== src/Heap/RoundTrip/Freed.antt =====
-- heap_free after a request that heap_alloc has served.
use mathlib.Core.List.{Perm, append_assoc}
use mathlib.Core.List.Perm
use evos.Base.{
  ℕ, ◌+◌, ◌-◌, ◌^◌, ◌≤◌, ◌<◌, ◌≡◌, refl, sym, ◌∙◌, true, false, List, [], ◌∷◌, ◌++◌, arith, ok,
  length, leb, Bool-cases, inl, inr,
}
use evos.Base.Memory.{Bytes}
use evos.OrderedArray.Laws.{Holds}
use evos.Heap.{Heap, size_at}
use evos.Heap.Alloc.Blocks.{SameOutside, Tiles}
use evos.Heap.Alloc.Laws.{IsServed, pieces, new_holes}
use evos.Heap.Free.{heap_free}
use evos.Heap.Free.Sides.{
  Side, edge, used_block, hole_block, blocks_of, kept_of, with_left, with_right, start_with, is_new,
  hole_at, added,
}
use evos.Heap.Free.Laws.{heap_free_lem}

Tiles-split :
    (m : Bytes) (start : ℕ) (xs ys : List (ℕ × ℕ)) (end : ℕ)
    → Tiles m start (xs ++ ys) end
    → (middle : ℕ) × Tiles m start xs middle × Tiles m middle ys end
Tiles-split m start [] ys end t = (start, refl, t)
Tiles-split m start ((size, hole) ∷ xs) ys end t =
    let (middle, front, back) = Tiles-split m (start + size) xs ys end t.1 in
    (middle, (t.0, front), back)

-- Where a run of blocks ends is a matter of its sizes.
Tiles-end :
    (m n : Bytes) (start : ℕ) (xs : List (ℕ × ℕ)) (a b : ℕ)
    → Tiles m start xs a
    → Tiles n start xs b
    → a ≡ b
Tiles-end m n start [] a b t u = sym t ∙ u
Tiles-end m n start ((size, hole) ∷ xs) a b t u = Tiles-end m n (start + size) xs a b t.1 u.1

-- A neighbour that is no hole stays as it is.
new_side :
    (s : Side)
    → is_new s ≡ true
    → (kept_of s ≡ blocks_of s)
      × ((n : ℕ) → with_left s n ≡ n)
      × ((n : ℕ) → with_right s n ≡ n)
      × ((a : ℕ) → start_with s a ≡ a)
      × ((a : ℕ) → hole_at s a ≡ [])
      × ((a : ℕ) → added s a ≡ a ∷ [])
new_side edge e = (refl, (λ n. refl), (λ n. refl), (λ a. refl), (λ a. refl), λ a. refl)
new_side (used_block k) e = (refl, (λ n. refl), (λ n. refl), (λ a. refl), (λ a. refl), λ a. refl)
new_side (hole_block k) e = absurd cc

-- The heap is as before the allocation, but for the order of the index and the bytes of the hole.
abbrev pub IsRestored :
    {Pages : Type 0} {heap heap' : Heap Pages} {xs : List ℕ} {size addr : ℕ}
    → IsServed heap xs size heap' addr
    → Heap Pages
    → Type 0
IsRestored {Pages} {heap} {heap'} {xs} {size} {addr} served heap'' =
    Tiles heap''.memory heap.allocated_start
      (served.hole.front ++ (size_at heap.memory addr, 1) ∷ served.hole.back) heap.allocated_end
    × (heap''.allocated_start ≡ heap.allocated_start)
    × (heap''.allocated_end ≡ heap.allocated_end)
    × SameOutside addr (addr + size_at heap.memory addr) heap.memory heap''.memory
    × ((holes : List ℕ) × Holds heap''.index holes × Perm holes xs)

module _ {Pages : Type 0} (heap : Heap Pages) (xs : List ℕ) (size addr : ℕ) (heap' : Heap Pages)
    (served : IsServed heap xs size heap' addr) (enough : size + 20 ≤ size_at heap.memory addr)
    (low : heap.allocated_end < 2 ^ 32) (high : 8 ≤ heap.allocated_start)
    (room : length served.holes < heap'.index.max_size) where
  abbrev total : ℕ
  total = size_at heap.memory addr

  -- The tiles of the allocation around its block.
  around :
      (middle : List (ℕ × ℕ))
      → pieces total size ≡ middle
      → Tiles heap'.memory heap'.allocated_start served.hole.front addr
        × Tiles heap'.memory addr (middle ++ served.hole.back) heap'.allocated_end
  around middle e =
      let tiles : Tiles heap'.memory heap'.allocated_start
          (served.hole.front ++ (middle ++ served.hole.back)) heap'.allocated_end =
        rw e at served.tiles in
      let (a, front, back) =
        Tiles-split heap'.memory heap'.allocated_start served.hole.front
          (middle ++ served.hole.back) heap'.allocated_end tiles in
      let front' : Tiles heap'.memory heap.allocated_start served.hole.front a =
        rw served.same_start at front in
      let at : a ≡ addr =
        Tiles-end heap'.memory heap.memory heap.allocated_start served.hole.front a addr front'
          served.hole.before in
      (rw at at front, rw at at back)

  module _ (front : List (ℕ × ℕ)) (left : Side)
      (in_front : served.hole.front ≡ front ++ blocks_of left) (first : left ≡ edge → front ≡ [])
      (full_left : is_new left ≡ true) where
    regroup :
        (heap'' : Heap Pages)
        → Tiles heap''.memory heap'.allocated_start
            (front ++ (kept_of left ++ (total, 1) ∷ served.hole.back))
            heap'.allocated_end
        → Tiles heap''.memory heap.allocated_start
            (served.hole.front ++ (total, 1) ∷ served.hole.back)
            heap.allocated_end
    regroup heap'' tiles =
        let kept = (new_side left full_left).0 in
        let list : front ++ (kept_of left ++ (total, 1) ∷ served.hole.back)
            ≡ served.hole.front ++ (total, 1) ∷ served.hole.back =
          rw (kept, in_front)
            (sym (append_assoc front (blocks_of left) ((total, 1) ∷ served.hole.back))) in
        rw (served.same_start, served.same_end, list) at tiles

    free_whole :
        (back : List (ℕ × ℕ)) (right : Side)
        → served.hole.back ≡ blocks_of right ++ back
        → (right ≡ edge → back ≡ [])
        → is_new right ≡ true
        → leb (total - (size + 20)) 20 ≡ true
        → (heap'' : Heap Pages) × (heap_free heap' (addr + 12) ≡ ok heap'')
          × IsRestored served heap''
    free_whole back right behind last full_right tight =
        let whole : pieces total size ≡ (total, 0) ∷ [] = rw tight refl in
        let none_new : new_holes addr total size ≡ [] = rw tight refl in
        let (tiles_front, tiles_back) = around ((total, 0) ∷ []) whole in
        let (kept_l, size_l, total_l, start_l, hole_l, added_l) = new_side left full_left in
        let (kept_r, size_r, total_r, start_r, hole_r, added_r) = new_side right full_right in
        let (heap'', holes, run, tiles, starts, ends, same, held, perm) =
          heap_free_lem heap' served.holes served.holes front back left right total addr
            (rw (sym served.same_end) at low) (rw (sym served.same_start) at high)
            (rw in_front at tiles_front) first tiles_back.0 (rw behind at tiles_back.1) last
            served.held room (rw (hole_r (addr + total)) (Perm.refl served.holes)) in
        let put_back : Perm served.holes served.others = rw none_new at served.put_back in
        let perm' : Perm holes (addr ∷ served.holes) = rw (added_l addr) at perm in
        let tiles' : Tiles heap''.memory heap'.allocated_start
            (front ++ (kept_of left ++ (total, 1) ∷ served.hole.back)) heap'.allocated_end =
          rw (size_l total, total_r total, kept_r, sym behind) at tiles in
        let same' : SameOutside addr (addr + total) heap'.memory heap''.memory =
          rw (size_l total, total_r total, start_l addr) at same in
        (
          heap'',
          run,
          (
            regroup heap'' tiles',
            (starts ∙ served.same_start),
            (ends ∙ served.same_end),
            (λ q h. same' q h ∙ served.same q h),
            (
              holes,
              held,
              Perm.trans perm' (Perm.trans (Perm.cons addr put_back) (Perm.symm served.taken)),
            ),
          ),
        )

    free_split :
        leb (total - (size + 20)) 20 ≡ false
        → (heap'' : Heap Pages) × (heap_free heap' (addr + 12) ≡ ok heap'')
          × IsRestored served heap''
    free_split loose =
        let n = size + 20 in
        let rest = total - n in
        let split : pieces total size ≡ (n, 0) ∷ (rest, 1) ∷ [] = rw loose refl in
        let one_new : new_holes addr total size ≡ (addr + n) ∷ [] = rw loose refl in
        let (tiles_front, tiles_back) = around ((n, 0) ∷ (rest, 1) ∷ []) split in
        let (kept_l, size_l, total_l, start_l, hole_l, added_l) = new_side left full_left in
        let put_back : Perm served.holes ((addr + n) ∷ served.others) =
          rw one_new at served.put_back in
        let (heap'', holes, run, tiles, starts, ends, same, held, perm) =
          heap_free_lem heap' served.holes served.others front served.hole.back left
            (hole_block rest) n addr (rw (sym served.same_end) at low)
            (rw (sym served.same_start) at high) (rw in_front at tiles_front) first tiles_back.0
            tiles_back.1 (λ e. absurd cc) served.held room put_back in
        let perm' : Perm holes (addr ∷ served.others) = rw (added_l addr) at perm in
        let sum : n + rest ≡ total = omega arith in
        let tiles' : Tiles heap''.memory heap'.allocated_start
            (front ++ (kept_of left ++ (total, 1) ∷ served.hole.back)) heap'.allocated_end =
          rw (size_l n, sum) at tiles in
        let same' : SameOutside addr (addr + total) heap'.memory heap''.memory =
          rw (size_l n, start_l addr, sum) at same in
        (
          heap'',
          run,
          (
            regroup heap'' tiles',
            (starts ∙ served.same_start),
            (ends ∙ served.same_end),
            (λ q h. same' q h ∙ served.same q h),
            (holes, held, Perm.trans perm' (Perm.symm served.taken)),
          ),
        )

    -- What heap_free does to a heap after a request has been served.
    pub heap_free-IsServed :
        (back : List (ℕ × ℕ)) (right : Side)
        → served.hole.back ≡ blocks_of right ++ back
        → (right ≡ edge → back ≡ [])
        → is_new right ≡ true
        → (heap'' : Heap Pages) × (heap_free heap' (addr + 12) ≡ ok heap'')
          × IsRestored served heap''
    heap_free-IsServed back right behind last full_right =
        elim (Bool-cases (leb (total - (size + 20)) 20)) [
          | inl tight ↦ free_whole back right behind last full_right tight
          | inr loose ↦ free_split loose
        ]
