-- ===== src/Bitset/Find.antt =====
-- `bitset_find_free` finds the least number that is not a member.
use evos.Base.{
  ℕ, zero, suc, ◌+◌, ◌*◌, ◌/◌, ◌%◌, ◌<◌, ◌≡◌, refl, ◌⊎◌, inl, inr, false, none, some, arith, ◌==◌,
  Bool-cases, get_or, ℕ_discrete, minus_one, u32, ==_iff,
}
use evos.Base.Bits.{bit-le-one, bit-mask}
use evos.Bitset.{Bitset, all_used, check_set, scan_word, scan_words, find_free}
use evos.Bitset.Laws.{digit, IsValid, check_set_iff}

-- every number below `n` is a member
abbrev pub AllUsed : Bitset → ℕ → Type 0
AllUsed s n = (j : ℕ) → j < n → digit s j ≡ 1

-- `i` is the least number that is not a member
pub record IsFirstFree (s : Bitset) (bound i : ℕ) : Type 0 where
  pub in_range : i < bound
  pub free : digit s i ≡ 0
  pub below : AllUsed s i

AllUsed-suc : (s : Bitset) (n : ℕ) → AllUsed s n → digit s n ≡ 1 → AllUsed s (n + 1)
AllUsed-suc s n all here j h = elim (ℕ_discrete j n) [
  | yes e ↦ rw e here
  | no ne ↦ all j (omega arith)
]

AllUsed-word :
    (s : Bitset) (outer : ℕ)
    → get_or s.base outer 0 ≡ all_used
    → AllUsed s (outer * 32)
    → AllUsed s ((outer + 1) * 32)
AllUsed-word s outer full all j h = elim (ℕ_discrete (j / 32) outer) [
  | yes e ↦ rw (e, full) (bit-mask 32 (j % 32) (omega arith))
  | no ne ↦ all j (omega arith)
]

-- the least number of the set's range that is not a member, or -1 when there is none
abbrev pub IsSearchResult : Bitset → ℕ → Type 0
IsSearchResult s i = ((i ≡ minus_one) × AllUsed s (s.size * 32)) ⊎ IsFirstFree s (s.size * 32) i

module _ {s : Bitset} (v : IsValid s) where
  scan_word_lem :
      (outer rounds inner : ℕ)
      → outer < s.size
      → inner + rounds ≡ 32
      → AllUsed s (outer * 32 + inner)
      → ((scan_word s outer rounds inner ≡ none) × AllUsed s ((outer + 1) * 32))
        ⊎ ((i : ℕ) × (scan_word s outer rounds inner ≡ some i) × IsFirstFree s (s.size * 32) i)
  unfolding scan_word
  scan_word_lem outer zero inner o e all = inl (refl, λ j h. all j (omega arith))
  scan_word_lem outer (suc rounds) inner o e all =
      let index : ℕ = outer * 32 + inner in
      let exact : u32 index ≡ index = omega (arith, v.small) in
      rw exact (elim (Bool-cases (check_set s index == 0)) [
        | inl z ↦
            let free : digit s index ≡ 0 = (check_set_iff v index).0 ((==_iff _ 0).0 z) in
            rw z (inr (index, refl, record { in_range = omega arith; free = free; below = all }))
        | inr nz ↦ rw nz (
            scan_word_lem outer rounds (inner + 1) o (omega arith)
              (λ j h. AllUsed-suc s index all (used index nz) j (omega arith)))
      ])
    where
      used : (i : ℕ) → (check_set s i == 0) ≡ false → digit s i ≡ 1
      used i h = ground (arith, check_set_iff v i, bit-le-one (get_or s.base (i / 32) 0) (i % 32))

  scan_words-IsSearchResult :
      (rounds outer : ℕ)
      → outer + rounds ≡ s.size
      → AllUsed s (outer * 32)
      → IsSearchResult s (scan_words s rounds outer)
  unfolding scan_words
  scan_words-IsSearchResult zero outer e all = inl (refl, λ j h. all j (omega arith))
  scan_words-IsSearchResult (suc rounds) outer e all =
      elim (Bool-cases (get_or s.base outer 0 == all_used)) [
        | inl full ↦ rw full (
            scan_words-IsSearchResult rounds (outer + 1) (omega arith)
              (AllUsed-word s outer ((==_iff _ all_used).0 full) all))
        | inr gap ↦
            rw gap
              (elim (scan_word_lem outer 32 0 (omega arith) refl (λ j h. all j (omega arith))) [
                | inl (none_free, used) ↦
                    rw none_free (scan_words-IsSearchResult rounds (outer + 1) (omega arith) used)
                | inr (i, found, first) ↦ rw found (inr first)
              ])
      ]

  -- `bitset_find_free` returns the least number that is not a member, below the `32 * size` numbers
  -- of the set; when all of them are members it returns -1.
  pub find_free_first : IsSearchResult s (find_free s)
  unfolding find_free
  find_free_first = scan_words-IsSearchResult s.size 0 (omega arith) (λ j h. absurd (omega arith))
