-- ===== src/Memory.antt =====
-- Runs of bytes: `memset` and `memcpy` of src/string.c on the bytes that start at a pointer, and
-- the words that a little-endian machine reads there.
pub mod Laws
use evos.Base.{ℕ, zero, suc, ◌+◌, ◌*◌, List, [], ◌∷◌, u8}

-- `memset(region, value, size)`; the bytes behind the region's end are not modelled.
unfoldable pub memset : List ℕ → ℕ → ℕ → List ℕ
memset region value zero = region
memset [] value (suc size) = []
memset (b ∷ region) value (suc size) = u8 value ∷ memset region value size

-- `memcpy(dest, src, num)` of regions that do not overlap.
unfoldable pub memcpy : List ℕ → List ℕ → ℕ → List ℕ
memcpy dest src zero = dest
memcpy [] src (suc num) = []
memcpy (d ∷ dest) [] (suc num) = d ∷ dest
memcpy (d ∷ dest) (s ∷ src) (suc num) = s ∷ memcpy dest src num

-- `((uint32_t*)region)[0], [1], ...`
unfoldable pub words : List ℕ → List ℕ
words (a ∷ b ∷ c ∷ d ∷ rest) = (a + 256 * b + 65536 * c + 16777216 * d) ∷ words rest
words _ = []
