-- ===== src/Heap/Search/Laws.antt =====
-- What `page_align_get_offset` and `find_hole` compute.
use mathlib.Core.List.{append_assoc, append-nil}
use mathlib.Core.Path.{subst}
use evos.Base.{
  ℕ, ◌+◌, ◌%◌, ◌^◌, ◌≤◌, ◌<◌, ◌≡◌, refl, sym, ap, ◌∙◌, ◌⊎◌, inl, inr, Bool, true, false, List, [],
  ◌∷◌, ◌++◌, arith, ok, length, length-append, get_elem?-append_here, All, All-append, All-map,
  Bool-cases, minus_one, leb→le, Result,
}
use evos.Base.Memory.{Bytes}
use evos.OrderedArray
use evos.OrderedArray.{OrderedArray}
use evos.OrderedArray.Order.{IsSorted, AllFrom, IsSorted-append, IsLess, by_rank}
use evos.OrderedArray.Laws.{Holds, index_lem}
use evos.Heap.{size_at, header_t_cmp}
use evos.Heap.Search.{page_align_get_offset, fits, find_hole_from, find_hole}

-- Skipping the offset puts the usable part of the block on a page boundary, the offset is 0 or has
-- room for more than a header and a footer, and it is the least such one.
pub page_align_get_offset_lem :
    (addr : ℕ)
    → addr + 12 < 2 ^ 32
    → let offset = page_align_get_offset addr in
      ((addr + offset + 12) % 4096 ≡ 0)
      × ((offset ≡ 0) ⊎ (20 < offset))
      × ((k : ℕ) → (addr + k + 12) % 4096 ≡ 0 → (k ≡ 0) ⊎ (20 < k) → offset ≤ k)
unfolding page_align_get_offset
page_align_get_offset_lem addr h = (ground arith, ground arith, λ k e far. ground arith)

module _ (m : Bytes) (size : ℕ) (page_align : Bool) where
  abbrev pub Unfit : ℕ → Type 0
  Unfit a = fits m size page_align a ≡ false

  -- How a search of the addresses `xs` ends: at none of them, or at the first that fits.
  abbrev pub FirstFit : List ℕ → Result ℕ → Type 0
  FirstFit xs r =
      ((r ≡ ok minus_one) × All Unfit xs)
      ⊎ ((before : List ℕ) × (a : ℕ) × (after : List ℕ) × (xs ≡ before ++ a ∷ after)
          × (r ≡ ok (length before))
          × (fits m size page_align a ≡ true)
          × All Unfit before)

  module _ (t : OrderedArray) where
    search_from :
        (xs ys zs : List ℕ) (i : ℕ)
        → xs ≡ ys ++ zs
        → Holds t xs
        → All Unfit ys
        → i ≡ length ys
        → FirstFit xs (find_hole_from m t size page_align (length zs) i)
    unfolding find_hole_from
    search_from xs ys [] i e h unfit at_end = inl (refl, rw (e, append-nil) unfit)
    search_from xs ys (a ∷ zs) i e h unfit here =
        let read : OrderedArray.index t i ≡ ok a =
          (index_lem i h).0 a (rw (e, here) (get_elem?-append_here ys a zs)) in
        rw read (elim (Bool-cases (fits m size page_align a)) [
          | inl fit ↦ rw fit (inr (ys, a, zs, e, ap ok here, fit, unfit))
          | inr no_fit ↦ rw no_fit (
              search_from xs (ys ++ a ∷ []) zs (i + 1) (e ∙ sym (append_assoc ys (a ∷ []) zs)) h
                (All-append Unfit ys (a ∷ []) unfit (no_fit, tt))
                (omega (arith, length-append ys (a ∷ []))))
        ])

    -- `find_hole` returns the index of the first hole that fits, and -1 exactly when none does.
    pub find_hole_first : {xs : List ℕ} → Holds t xs → FirstFit xs (find_hole m t size page_align)
    unfolding find_hole
    find_hole_first {xs} h =
        subst (λ n. FirstFit xs (find_hole_from m t size page_align n 0)) (sym h.count)
          (search_from xs [] xs 0 refl h tt refl)

-- `header_t_cmp` compares a number, as the index expects.
pub header_t_cmp-IsLess : (m : Bytes) → IsLess (header_t_cmp m)
unfolding header_t_cmp
header_t_cmp-IsLess m = by_rank (size_at m)

-- `a` is one of the smallest holes with room for `size` bytes.
abbrev pub IsBestFit : Bytes → ℕ → List ℕ → ℕ → Type 0
IsBestFit m size xs a =
    (size ≤ size_at m a) × All (λ b. size ≤ size_at m b → size_at m a ≤ size_at m b) xs

module _ (m : Bytes) (size : ℕ) where
  pub unfit-lt : (b : ℕ) → fits m size false b ≡ false → size_at m b < size
  unfolding fits
  unfit-lt b h = ground arith

  from-le :
      (a : ℕ) (zs : List ℕ)
      → AllFrom (header_t_cmp m) a zs
      → All (λ b. size ≤ size_at m b → size_at m a ≤ size_at m b) zs
  unfolding header_t_cmp
  from-le a [] all = tt
  from-le a (z ∷ zs) all = (λ h. ground (arith, all.0), from-le a zs all.1)

  -- In an index that is in the order of the sizes, the first hole that is large enough is one of
  -- the smallest that are.
  pub first-IsBestFit :
      (ys : List ℕ) (a : ℕ) (zs : List ℕ)
      → IsSorted (header_t_cmp m) (ys ++ a ∷ zs)
      → fits m size false a ≡ true
      → All (Unfit m size false) ys
      → IsBestFit m size (ys ++ a ∷ zs) a
  unfolding fits
  first-IsBestFit ys a zs s fit unfit =
      let Better : ℕ → Type 0 = λ b. size ≤ size_at m b → size_at m a ≤ size_at m b in
      let sorted = IsSorted-append (header_t_cmp m) (header_t_cmp-IsLess m) ys (a ∷ zs) s in
      (
        leb→le size (size_at m a) fit,
        All-append Better ys (a ∷ zs)
            (All-map (Unfit m size false) Better ys (λ b h k. absurd (omega (arith, unfit-lt b h)))
              unfit)
            (λ h. omega arith, from-le a zs sorted.1.0),
      )
