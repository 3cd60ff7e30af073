-- ===== src/Base/Memory.antt =====
-- Byte-addressed memory, and the 32-bit words in it, lowest byte first.
use Prim.Native.Nat.{ℕ, ◌+◌, ◌*◌, ◌/◌, ◌%◌, ◌^◌, ◌≤◌, ◌<◌}
use mathlib.Core.Path.{◌≡◌}
use mathlib.Core.Logic.{◌⊎◌}
use native.Mathlib.Omega.{arith}
use evos.Base.Tests.{◌==◌, if◌then◌else◌}

abbrev pub Bytes : Type 0
Bytes = ℕ → ℕ

unfoldable pub load32 : Bytes → ℕ → ℕ
load32 m a = m a + 256 * m (a + 1) + 65536 * m (a + 2) + 16777216 * m (a + 3)

unfoldable pub store32 : Bytes → ℕ → ℕ → Bytes
store32 m a w q =
    if q == a
    then w % 256
    else if q == a + 1
    then w / 256 % 256
    else if q == a + 2
    then w / 65536 % 256
    else if q == a + 3
    then w / 16777216 % 256
    else m q

pub load32-store32_self : (m : Bytes) (a w : ℕ) → w < 2 ^ 32 → load32 (store32 m a w) a ≡ w
unfolding load32 store32
load32-store32_self m a w h = ground arith

pub store32_outside : (m : Bytes) (a w q : ℕ) → (q < a) ⊎ (a + 4 ≤ q) → store32 m a w q ≡ m q
unfolding store32
store32_outside m a w q h = ground arith

-- Two memories that agree on the four bytes hold the same word.
pub load32_ext :
    (m n : Bytes) (a : ℕ) → ((q : ℕ) → a ≤ q → q < a + 4 → m q ≡ n q) → load32 m a ≡ load32 n a
unfolding load32
load32_ext m n a h = ground (arith, h a, h (a + 1), h (a + 2), h (a + 3))

pub load32-store32_ne :
    (m : Bytes) (a w b : ℕ) → (b + 4 ≤ a) ⊎ (a + 4 ≤ b) → load32 (store32 m a w) b ≡ load32 m b
load32-store32_ne m a w b h =
    load32_ext (store32 m a w) m b (λ q p r. store32_outside m a w q (omega arith))
