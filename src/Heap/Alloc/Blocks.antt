-- ===== src/Heap/Alloc/Blocks.antt =====
-- Blocks in memory: a header and a footer that agree, and runs of blocks that touch.
use evos.Base.{ℕ, ◌+◌, ◌-◌, ◌^◌, ◌≤◌, ◌<◌, ◌≡◌, ◌∙◌, ◌⊎◌, List, [], ◌∷◌, ◌++◌, arith}
use evos.Base.Memory.{
  Bytes, load32, store32, load32-store32_self, load32-store32_ne, load32_ext, store32_outside,
}
use evos.Heap.{
  magic, header_magic, is_hole, size_at, footer_magic, footer_header, write_header, write_footer,
}

-- A block of `size` bytes at `addr`, with what its header says of being a hole.
pub record IsBlock (m : Bytes) (addr size hole : ℕ) : Type 0 where
  pub header : header_magic m addr ≡ magic
  pub hole_flag : is_hole m addr ≡ hole
  pub sized : size_at m addr ≡ size
  pub footer : footer_magic m (addr + size - 8) ≡ magic
  pub back : footer_header m (addr + size - 8) ≡ addr
  pub room : 20 ≤ size

-- The memories agree outside the bytes from `low` up to `high`.
abbrev pub SameOutside : ℕ → ℕ → Bytes → Bytes → Type 0
SameOutside low high m n = (q : ℕ) → (q < low) ⊎ (high ≤ q) → n q ≡ m q

-- A block is a matter of its own bytes.
pub IsBlock-SameOutside :
    {m n : Bytes} {addr size hole : ℕ} (low high : ℕ)
    → SameOutside low high m n
    → (addr + size ≤ low) ⊎ (high ≤ addr)
    → IsBlock m addr size hole
    → IsBlock n addr size hole
IsBlock-SameOutside {m} {n} {addr} {size} low high same apart b = record {
  header = word addr (omega (arith, b.room)) ∙ b.header;
  hole_flag = word (addr + 4) (omega (arith, b.room)) ∙ b.hole_flag;
  sized = word (addr + 8) (omega (arith, b.room)) ∙ b.sized;
  footer = word (addr + size - 8) (omega (arith, b.room)) ∙ b.footer;
  back = word (addr + size - 8 + 4) (omega (arith, b.room)) ∙ b.back;
  room = b.room;
}
  where
    word : (a : ℕ) → (addr ≤ a) × (a + 4 ≤ addr + size) → load32 n a ≡ load32 m a
    word a inside = load32_ext n m a (λ q p r. same q (omega arith))

-- The memory with a block written.
abbrev pub block_written : Bytes → ℕ → ℕ → ℕ → Bytes
block_written m addr size hole = write_footer (write_header m addr size hole) (addr + size - 8) addr

module _ (m : Bytes) (addr size hole : ℕ) (room : 20 ≤ size) (fits : addr + size < 2 ^ 32) where
  abbrev footer_at : ℕ
  footer_at = addr + size - 8

  abbrev with_header : Bytes
  with_header = write_header m addr size hole

  abbrev with_block : Bytes
  with_block = block_written m addr size hole

  -- The footer leaves what lies in front of it.
  before_footer : (b : ℕ) → b + 4 ≤ footer_at → load32 with_block b ≡ load32 with_header b
  unfolding write_footer
  before_footer b h =
      load32-store32_ne (store32 with_header footer_at magic) (footer_at + 4) addr b (omega arith)
      ∙ load32-store32_ne with_header footer_at magic b (omega arith)

  header_written : header_magic with_header addr ≡ magic
  unfolding write_header
  header_written =
      load32-store32_ne (store32 (store32 m (addr + 8) size) addr magic) (addr + 4) hole addr
        (omega arith)
      ∙ load32-store32_self (store32 m (addr + 8) size) addr magic (omega arith)

  size_written : size_at with_header addr ≡ size
  unfolding write_header
  size_written =
      load32-store32_ne (store32 (store32 m (addr + 8) size) addr magic) (addr + 4) hole (addr + 8)
        (omega arith)
      ∙ load32-store32_ne (store32 m (addr + 8) size) addr magic (addr + 8) (omega arith)
      ∙ load32-store32_self m (addr + 8) size (omega arith)

  hole_written : hole < 2 ^ 32 → is_hole with_header addr ≡ hole
  unfolding write_header
  hole_written small =
      load32-store32_self (store32 (store32 m (addr + 8) size) addr magic) (addr + 4) hole small

  footer_written : footer_magic with_block footer_at ≡ magic
  unfolding write_footer
  footer_written =
      load32-store32_ne (store32 with_header footer_at magic) (footer_at + 4) addr footer_at
        (omega arith)
      ∙ load32-store32_self with_header footer_at magic (omega arith)

  back_written : footer_header with_block footer_at ≡ addr
  unfolding write_footer
  back_written =
      load32-store32_self (store32 with_header footer_at magic) (footer_at + 4) addr (omega arith)

  -- Writing header and footer makes a block, and writes nowhere else.
  pub write-IsBlock : hole < 2 ^ 32 → IsBlock (block_written m addr size hole) addr size hole
  write-IsBlock small = record {
    header = before_footer addr (omega arith) ∙ header_written;
    hole_flag = before_footer (addr + 4) (omega arith) ∙ hole_written small;
    sized = before_footer (addr + 8) (omega arith) ∙ size_written;
    footer = footer_written;
    back = back_written;
    room = room;
  }

  pub write-SameOutside : SameOutside addr (addr + size) m (block_written m addr size hole)
  unfolding write_header write_footer
  write-SameOutside q h =
      store32_outside (store32 with_header footer_at magic) (footer_at + 4) addr q (omega arith)
      ∙ store32_outside with_header footer_at magic q (omega arith)
      ∙ store32_outside (store32 (store32 m (addr + 8) size) addr magic) (addr + 4) hole q
          (omega arith)
      ∙ store32_outside (store32 m (addr + 8) size) addr magic q (omega arith)
      ∙ store32_outside m (addr + 8) size q (omega arith)

-- Blocks, each with its size and what it says of being a hole, that lie next to one another from
-- `start` to `end`.
abbrev pub Tiles : Bytes → ℕ → List (ℕ × ℕ) → ℕ → Type 0
Tiles m start [] end = start ≡ end
Tiles m start ((size, hole) ∷ blocks) end =
    IsBlock m start size hole × Tiles m (start + size) blocks end

pub Tiles-le :
    (m : Bytes) (start : ℕ) (blocks : List (ℕ × ℕ)) (end : ℕ)
    → Tiles m start blocks end
    → start ≤ end
Tiles-le m start [] end t = omega arith
Tiles-le m start ((size, hole) ∷ blocks) end t =
    omega (arith, Tiles-le m (start + size) blocks end t.1)

pub Tiles-SameOutside :
    (m n : Bytes) (low high start : ℕ) (blocks : List (ℕ × ℕ)) (end : ℕ)
    → SameOutside low high m n
    → (end ≤ low) ⊎ (high ≤ start)
    → Tiles m start blocks end
    → Tiles n start blocks end
Tiles-SameOutside m n low high start [] end same apart t = t
Tiles-SameOutside m n low high start ((size, hole) ∷ blocks) end same apart t = (
  IsBlock-SameOutside low high same (omega (arith, Tiles-le m (start + size) blocks end t.1)) t.0,
  Tiles-SameOutside m n low high (start + size) blocks end same (omega arith) t.1,
)

pub Tiles-append :
    (m : Bytes) (start : ℕ) (front : List (ℕ × ℕ)) (middle : ℕ) (back : List (ℕ × ℕ)) (end : ℕ)
    → Tiles m start front middle
    → Tiles m middle back end
    → Tiles m start (front ++ back) end
Tiles-append m start [] middle back end t u = rw t u
Tiles-append m start ((size, hole) ∷ front) middle back end t u =
    (t.0, Tiles-append m (start + size) front middle back end t.1 u)
