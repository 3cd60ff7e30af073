-- ===== src/Memory/Laws.antt =====
-- What `memset` and `memcpy` leave in a region.
use evos.Base.{
  ℕ, zero, suc, ◌+◌, ◌*◌, ◌≤◌, ◌<◌, ◌≡◌, refl, ap, List, [], ◌∷◌, ◌++◌, arith, length, get_or, u8,
}
use evos.Memory.{memset, memcpy, words}

pub length-memset :
    (region : List ℕ) (value size : ℕ) → length (memset region value size) ≡ length region
unfolding memset
length-memset region value zero = refl
length-memset [] value (suc size) = refl
length-memset (b ∷ region) value (suc size) = ap suc (length-memset region value size)

-- `memset` writes the first `size` bytes and leaves the others.
pub memset-get_or :
    (region : List ℕ) (value size i : ℕ)
    → (i < size → i < length region → get_or (memset region value size) i 0 ≡ u8 value)
      × (size ≤ i → get_or (memset region value size) i 0 ≡ get_or region i 0)
unfolding memset
memset-get_or region value zero i = (λ h. absurd (omega arith), λ h. refl)
memset-get_or [] value (suc size) i = (λ h k. absurd (omega arith), λ h. refl)
memset-get_or (b ∷ region) value (suc size) zero = (λ h k. refl, λ h. absurd (omega arith))
memset-get_or (b ∷ region) value (suc size) (suc i) =
    let rest = memset-get_or region value size i in
    (λ h k. rest.0 (omega arith) (omega arith), λ h. rest.1 (omega arith))

skip_four :
    (a b c d : ℕ) (rest : List ℕ) (m n : ℕ)
    → m ≡ n + 4
    → get_or (a ∷ b ∷ c ∷ d ∷ rest) m 0 ≡ get_or rest n 0
skip_four a b c d rest m n h = let e : m ≡ suc (suc (suc (suc n))) = omega arith in rw e

-- A word is read from its four bytes.
pub words-get_or :
    (region : List ℕ) (k : ℕ)
    → 4 * k + 4 ≤ length region
    → get_or (words region) k 0
      ≡ get_or region (4 * k) 0
        + 256 * get_or region (4 * k + 1) 0
        + 65536 * get_or region (4 * k + 2) 0
        + 16777216 * get_or region (4 * k + 3) 0
unfolding words
words-get_or (a ∷ b ∷ c ∷ d ∷ rest) zero h = refl
words-get_or (a ∷ b ∷ c ∷ d ∷ rest) (suc k) h = rw (
  words-get_or rest k (omega arith),
  skip_four a b c d rest (4 * suc k) (4 * k) (omega arith),
  skip_four a b c d rest (4 * suc k + 1) (4 * k + 1) (omega arith),
  skip_four a b c d rest (4 * suc k + 2) (4 * k + 2) (omega arith),
  skip_four a b c d rest (4 * suc k + 3) (4 * k + 3) (omega arith),
)
words-get_or [] k h = absurd (omega arith)
words-get_or (a ∷ []) k h = absurd (omega arith)
words-get_or (a ∷ b ∷ []) k h = absurd (omega arith)
words-get_or (a ∷ b ∷ c ∷ []) k h = absurd (omega arith)

-- `memcpy` copies the first `num` bytes of the source, and leaves the rest of the target.
pub memcpy_lem :
    (front dest src more : List ℕ)
    → length front ≡ length src
    → memcpy (front ++ dest) (src ++ more) (length src) ≡ src ++ dest
unfolding memcpy
memcpy_lem [] dest [] more e = refl
memcpy_lem [] dest (s ∷ src) more e = absurd (omega arith)
memcpy_lem (f ∷ front) dest [] more e = absurd (omega arith)
memcpy_lem (f ∷ front) dest (s ∷ src) more e =
    ap (λ t. s ∷ t) (memcpy_lem front dest src more (omega arith))

-- Clearing `size` bytes clears the words that lie in them, and keeps those that lie behind them.
pub memset-words :
    (region : List ℕ) (size k : ℕ)
    → 4 * k + 4 ≤ length region
    → (4 * k + 4 ≤ size → get_or (words (memset region 0 size)) k 0 ≡ 0)
      × (size ≤ 4 * k → get_or (words (memset region 0 size)) k 0 ≡ get_or (words region) k 0)
memset-words region size k room =
    let after = memset region 0 size in
    let read = words-get_or after k (omega (arith, length-memset region 0 size)) in
    let byte = memset-get_or region 0 size in
    (
      λ h. rw (
        read,
        (byte (4 * k)).0 (omega arith) (omega arith),
        (byte (4 * k + 1)).0 (omega arith) (omega arith),
        (byte (4 * k + 2)).0 (omega arith) (omega arith),
        (byte (4 * k + 3)).0 (omega arith) (omega arith),
      ),
      λ h. rw (
        read,
        words-get_or region k room,
        (byte (4 * k)).1 h,
        (byte (4 * k + 1)).1 (omega arith),
        (byte (4 * k + 2)).1 (omega arith),
        (byte (4 * k + 3)).1 (omega arith),
      ),
    )
