-- ===== src/Heap/Free/Join.antt =====
-- Two blocks that touch become one when the size is stored at the front and the way back at the end.
use evos.Base.{ℕ, ◌+◌, ◌-◌, ◌^◌, ◌≤◌, ◌<◌, ◌≡◌, ◌⊎◌, ◌∙◌, arith}
use evos.Base.Memory.{
  Bytes, load32, store32, load32-store32_self, load32-store32_ne, store32_outside,
}
use evos.Heap.Alloc.Blocks.{IsBlock, SameOutside}

-- The memory with the blocks joined, in the order in which the left neighbour is joined, and the
-- right one.
abbrev pub joined_left : Bytes → ℕ → ℕ → ℕ → Bytes
joined_left m a n k = store32 (store32 m (a + n + k - 4) a) (a + 8) (n + k)

abbrev pub joined_right : Bytes → ℕ → ℕ → ℕ → Bytes
joined_right m a n k = store32 (store32 m (a + 8) (n + k)) (a + n + k - 4) a

-- The blocks at `a`, of `n` bytes, and behind it, of `k` bytes.
module _ (m : Bytes) (a n k hole hole' : ℕ) (first : IsBlock m a n hole)
    (second : IsBlock m (a + n) k hole') (low : a + n + k < 2 ^ 32) where
  abbrev back_at : ℕ
  back_at = a + n + k - 4

  -- A word that both stores leave.
  kept_left :
      (b : ℕ)
      → (b + 4 ≤ a + 8) ⊎ (a + 12 ≤ b)
      → b + 4 ≤ back_at
      → load32 (joined_left m a n k) b ≡ load32 m b
  kept_left b h h' =
      load32-store32_ne (store32 m back_at a) (a + 8) (n + k) b (omega arith)
      ∙ load32-store32_ne m back_at a b (omega arith)

  kept_right :
      (b : ℕ)
      → (b + 4 ≤ a + 8) ⊎ (a + 12 ≤ b)
      → b + 4 ≤ back_at
      → load32 (joined_right m a n k) b ≡ load32 m b
  kept_right b h h' =
      load32-store32_ne (store32 m (a + 8) (n + k)) back_at a b (omega arith)
      ∙ load32-store32_ne m (a + 8) (n + k) b (omega arith)

  at_end : a + (n + k) - 8 ≡ a + n + k - 8
  at_end = omega arith

  end_back : a + n + k - 8 + 4 ≡ back_at
  end_back = omega (arith, first.room)

  pub joined_left-IsBlock : IsBlock (joined_left m a n k) a (n + k) hole
  joined_left-IsBlock = record {
    header = kept_left a (omega arith) (omega (arith, first.room)) ∙ first.header;
    hole_flag = kept_left (a + 4) (omega arith) (omega (arith, first.room)) ∙ first.hole_flag;
    sized = load32-store32_self (store32 m back_at a) (a + 8) (n + k) (omega arith);
    footer = rw at_end (
        kept_left (a + n + k - 8) (omega (arith, first.room, second.room))
          (omega (arith, first.room))
        ∙ second.footer);
    back =
        rw (at_end, end_back)
          (load32-store32_ne (store32 m back_at a) (a + 8) (n + k) back_at
              (omega (arith, first.room, second.room))
            ∙ load32-store32_self m back_at a (omega arith));
    room = omega (arith, first.room);
  }

  pub joined_right-IsBlock : IsBlock (joined_right m a n k) a (n + k) hole
  joined_right-IsBlock = record {
    header = kept_right a (omega arith) (omega (arith, first.room)) ∙ first.header;
    hole_flag = kept_right (a + 4) (omega arith) (omega (arith, first.room)) ∙ first.hole_flag;
    sized =
        load32-store32_ne (store32 m (a + 8) (n + k)) back_at a (a + 8)
          (omega (arith, first.room, second.room))
        ∙ load32-store32_self m (a + 8) (n + k) (omega arith);
    footer = rw at_end (
        kept_right (a + n + k - 8) (omega (arith, first.room, second.room))
          (omega (arith, first.room))
        ∙ second.footer);
    back =
        rw (at_end, end_back)
          (load32-store32_self (store32 m (a + 8) (n + k)) back_at a (omega arith));
    room = omega (arith, first.room);
  }

  pub joined_left-SameOutside : SameOutside a (a + n + k) m (joined_left m a n k)
  joined_left-SameOutside q h =
      store32_outside (store32 m back_at a) (a + 8) (n + k) q (omega (arith, first.room))
      ∙ store32_outside m back_at a q (omega (arith, first.room))

  pub joined_right-SameOutside : SameOutside a (a + n + k) m (joined_right m a n k)
  joined_right-SameOutside q h =
      store32_outside (store32 m (a + 8) (n + k)) back_at a q (omega (arith, first.room))
      ∙ store32_outside m (a + 8) (n + k) q (omega (arith, first.room))
