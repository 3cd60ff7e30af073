-- ===== src/Monitor/Scroll.antt =====
-- What the loops over the screen leave in each word.
use evos.Base.{
  ℕ_discrete, ℕ, zero, suc, ◌+◌, ◌≤◌, ◌<◌, ◌≡◌, refl, sym, ◌∙◌, ◌⊎◌, inl, List, arith, length,
  get_or, set, length-set, get_or-set_self, get_or-set_ne,
}
use evos.Monitor.{blank, copy_up, fill_blank}

pub length-copy_up :
    (count i : ℕ) (buffer : List ℕ) → length (copy_up count i buffer) ≡ length buffer
unfolding copy_up
length-copy_up zero i buffer = refl
length-copy_up (suc count) i buffer =
    length-copy_up count (suc i) (set buffer i (get_or buffer (i + 80) 0))
    ∙ length-set buffer i (get_or buffer (i + 80) 0)

pub length-fill_blank :
    (count i : ℕ) (buffer : List ℕ) → length (fill_blank count i buffer) ≡ length buffer
unfolding fill_blank
length-fill_blank zero i buffer = refl
length-fill_blank (suc count) i buffer =
    length-fill_blank count (suc i) (set buffer i blank) ∙ length-set buffer i blank

pub fill_blank_outside :
    (count i j : ℕ) (buffer : List ℕ)
    → (j < i) ⊎ (i + count ≤ j)
    → get_or (fill_blank count i buffer) j 0 ≡ get_or buffer j 0
unfolding fill_blank
fill_blank_outside zero i j buffer h = refl
fill_blank_outside (suc count) i j buffer h =
    fill_blank_outside count (suc i) j (set buffer i blank) (omega arith)
    ∙ get_or-set_ne buffer i j blank 0 (omega arith)

pub fill_blank_inside :
    (count i j : ℕ) (buffer : List ℕ)
    → i ≤ j
    → j < i + count
    → i + count ≤ length buffer
    → get_or (fill_blank count i buffer) j 0 ≡ blank
unfolding fill_blank
fill_blank_inside zero i j buffer from to room = absurd (omega arith)
fill_blank_inside (suc count) i j buffer from to room = elim (ℕ_discrete i j) [
  | yes e ↦
      fill_blank_outside count (suc i) j (set buffer i blank) (inl (omega arith))
      ∙ rw (sym e) (get_or-set_self buffer i blank 0 (omega arith))
  | no ne ↦
      fill_blank_inside count (suc i) j (set buffer i blank) (omega arith) (omega arith)
        (omega (arith, length-set buffer i blank))
]

pub copy_up_outside :
    (count i j : ℕ) (buffer : List ℕ)
    → (j < i) ⊎ (i + count ≤ j)
    → get_or (copy_up count i buffer) j 0 ≡ get_or buffer j 0
unfolding copy_up
copy_up_outside zero i j buffer h = refl
copy_up_outside (suc count) i j buffer h =
    copy_up_outside count (suc i) j (set buffer i (get_or buffer (i + 80) 0)) (omega arith)
    ∙ get_or-set_ne buffer i j (get_or buffer (i + 80) 0) 0 (omega arith)

-- The words that are read lie behind those that have been written.
pub copy_up_inside :
    (count i j : ℕ) (buffer : List ℕ)
    → i ≤ j
    → j < i + count
    → i + count ≤ length buffer
    → get_or (copy_up count i buffer) j 0 ≡ get_or buffer (j + 80) 0
unfolding copy_up
copy_up_inside zero i j buffer from to room = absurd (omega arith)
copy_up_inside (suc count) i j buffer from to room =
    let moved = get_or buffer (i + 80) 0 in
    elim (ℕ_discrete i j) [
      | yes e ↦
          copy_up_outside count (suc i) j (set buffer i moved) (inl (omega arith))
          ∙ rw (sym e) (get_or-set_self buffer i moved 0 (omega arith))
      | no ne ↦
          copy_up_inside count (suc i) j (set buffer i moved) (omega arith) (omega arith)
            (omega (arith, length-set buffer i moved))
          ∙ get_or-set_ne buffer i (j + 80) moved 0 (omega arith)
    ]
