-- ===== src/Heap/Free/Sides.antt =====
-- A block and its two neighbours, and the holes without one of them.
use mathlib.Core.List.{Perm, Mem, not-mem-nil, mem-cons_self, mem_of_ne_of_mem, perm_middle}
use mathlib.Core.List.Perm
use evos.Base.{
  ℕ, ◌+◌, ◌-◌, ◌≡◌, ◌≢◌, refl, sym, ap, Bool, true, false, List, [], ◌∷◌, ◌++◌, All, ℕ_discrete,
}
use evos.Base.Memory.{Bytes}
use evos.Heap.Alloc.Blocks.{IsBlock, Tiles}

-- What lies on one side of a block: the edge of the heap, a block in use, or a hole.
pub data Side : Type 0 where
  edge : Side
  used_block : ℕ → Side
  hole_block : ℕ → Side

-- Its size and what it says of being a hole.
abbrev pub blocks_of : Side → List (ℕ × ℕ)
blocks_of edge = []
blocks_of (used_block n) = (n, 0) ∷ []
blocks_of (hole_block n) = (n, 1) ∷ []

-- What stays of it beside the freed block.
abbrev pub kept_of : Side → List (ℕ × ℕ)
kept_of edge = []
kept_of (used_block n) = (n, 0) ∷ []
kept_of (hole_block n) = []

-- The size of a freed block with what it gains on its left and on its right, and where it then starts.
abbrev pub with_left : Side → ℕ → ℕ
with_left edge size = size
with_left (used_block n) size = size
with_left (hole_block n) size = n + size

abbrev pub with_right : Side → ℕ → ℕ
with_right edge size = size
with_right (used_block n) size = size
with_right (hole_block n) size = size + n

abbrev pub start_with : Side → ℕ → ℕ
start_with edge addr = addr
start_with (used_block n) addr = addr
start_with (hole_block n) addr = addr - n

-- Whether the freed block is a new entry of the index.
abbrev pub is_new : Side → Bool
is_new edge = true
is_new (used_block n) = true
is_new (hole_block n) = false

-- The address `a`, if there is a hole on this side.
abbrev pub hole_at : Side → ℕ → List ℕ
hole_at edge a = []
hole_at (used_block n) a = []
hole_at (hole_block n) a = a ∷ []

-- The new hole at `a`, unless the hole on the left has grown instead.
abbrev pub added : Side → ℕ → List ℕ
added edge a = a ∷ []
added (used_block n) a = a ∷ []
added (hole_block n) a = []

split_first :
    (x : ℕ) (xs : List ℕ)
    → Mem x xs
    → (ys : List ℕ) × (zs : List ℕ) × (xs ≡ ys ++ x ∷ zs) × All (λ y. y ≢ x) ys
split_first x [] h = absurd (not-mem-nil h)
split_first x (y ∷ xs) h = elim (ℕ_discrete y x) [
  | yes e ↦ ([], xs, ap (λ t. t ∷ xs) e, tt)
  | no ne ↦
      let (ys, zs, same, others) = split_first x xs (mem_of_ne_of_mem (λ e. ne (sym e)) h) in
      (y ∷ ys, zs, ap (λ t. y ∷ t) same, (ne, others))
]

-- Without one of its elements.
pub without :
    (x : ℕ) (xs others : List ℕ)
    → Perm xs (x ∷ others)
    → (ys : List ℕ) × (zs : List ℕ) × (xs ≡ ys ++ x ∷ zs)
      × All (λ y. y ≢ x) ys
      × Perm (ys ++ zs) others
without x xs others p =
    let (ys, zs, same, differ) = split_first x xs ((Perm.mem_iff p).1 mem-cons_self) in
    (
      ys,
      zs,
      same,
      differ,
      Perm.cons_inv (Perm.trans (Perm.symm (perm_middle ys zs)) (rw same at p)),
    )

-- The last block of a run.
pub Tiles-last :
    (m : Bytes) (start : ℕ) (front : List (ℕ × ℕ)) (n hole end : ℕ)
    → Tiles m start (front ++ (n, hole) ∷ []) end
    → (middle : ℕ) × Tiles m start front middle × IsBlock m middle n hole × (middle + n ≡ end)
Tiles-last m start [] n hole end t = (start, refl, t.0, t.1)
Tiles-last m start ((size, flag) ∷ front) n hole end t =
    let (middle, before, block, last) = Tiles-last m (start + size) front n hole end t.1 in
    (middle, (t.0, before), block, last)
