-- ===== src/Bitset/Create.antt =====
-- What `bitset_create` leaves in the words: it counts the words, and clears as many bytes.
use evos.Base.{ℕ, ◌+◌, ◌-◌, ◌*◌, ◌/◌, ◌%◌, ◌^◌, ◌≤◌, ◌<◌, ◌≡◌, refl, arith, List, length, get_or}
use evos.Memory.{words}
use evos.Memory.Laws.{memset-words}
use evos.Bitset.{create}

-- For a region with room for all the words, `bitset_create` counts one word for each 32 numbers,
-- clears the words in the first quarter of them, and leaves what stood in the memory of every
-- word behind that quarter.
pub create_lem :
    (region : List ℕ) (size k : ℕ)
    → size + 31 < 2 ^ 32
    → k < (size + 31) / 32
    → 4 * ((size + 31) / 32) ≤ length region
    → ((create region size).size ≡ (size + 31) / 32)
      × (4 * k + 4 ≤ (size + 31) / 32 → get_or (create region size).base k 0 ≡ 0)
      × ((size + 31) / 32 ≤ 4 * k
          → get_or (create region size).base k 0 ≡ get_or (words region) k 0)
unfolding create
create_lem region size k small h room =
    let exact : (size + 32 - 1) % 2 ^ 32 / 32 ≡ (size + 31) / 32 = omega arith in
    let cleared = memset-words region ((size + 31) / 32) k (omega arith) in
    rw exact (refl, cleared.0, cleared.1)
