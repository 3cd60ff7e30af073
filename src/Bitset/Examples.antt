-- ===== src/Bitset/Examples.antt =====
-- The bitset at concrete inputs.
use evos.Base.{
  ℕ, ◌+◌, ◌*◌, ◌/◌, ◌≤◌, ◌<◌, ◌^◌, zero, suc, ◌≡◌, refl, ◌∷◌, [], List, arith, get_or, replicate,
}
use evos.Memory.{words}
use evos.Bitset.{Bitset, create, set_bit, clear_bit, check_set, scan_word, scan_words, find_free}
use evos.Bitset.Laws.{IsValid, set_bit-IsValid, clear_bit-IsValid}
use evos.Bitset.Find.{IsSearchResult, find_free_first}
use evos.Bitset.Create.{create_lem}

-- 0 to 32 are members, of 64 numbers
abbrev partly : Bitset
partly = record { base = 0xFFFFFFFF ∷ 1 ∷ []; size = 2 }

abbrev partly-IsValid : IsValid partly
partly-IsValid = record { counted = refl; small = omega arith; words = words_small }
  where
    words_small : (k : ℕ) → get_or partly.base k 0 < 2 ^ 32
    words_small zero = omega arith
    words_small (suc zero) = omega arith
    words_small (suc (suc k)) = omega arith

find_free_runs : find_free partly ≡ 33
unfolding find_free scan_words scan_word check_set
find_free_runs = refl

set_bit_runs : set_bit partly 63 ≡ record { base = 0xFFFFFFFF ∷ 0x80000001 ∷ []; size = 2 }
unfolding set_bit
set_bit_runs = refl

clear_bit_runs : clear_bit partly 31 ≡ record { base = 0x7FFFFFFF ∷ 1 ∷ []; size = 2 }
unfolding clear_bit
clear_bit_runs = refl

find_free_first_example : IsSearchResult partly (find_free partly)
find_free_first_example = find_free_first partly-IsValid

set_bit-IsValid_example : IsValid (set_bit partly 40)
set_bit-IsValid_example = set_bit-IsValid partly-IsValid 40

clear_bit-IsValid_example : IsValid (clear_bit partly 3)
clear_bit-IsValid_example = clear_bit-IsValid partly-IsValid 3

-- 8 words whose memory holds 0xFF bytes; the third word is not cleared
abbrev stale : List ℕ
stale = replicate 32 0xFF

create_lem_example :
    ((create stale 256).size ≡ (256 + 31) / 32)
    × (4 * 2 + 4 ≤ (256 + 31) / 32 → get_or (create stale 256).base 2 0 ≡ 0)
    × ((256 + 31) / 32 ≤ 4 * 2 → get_or (create stale 256).base 2 0 ≡ get_or (words stale) 2 0)
create_lem_example = create_lem stale 256 2 (omega arith) (omega arith) (omega arith)
