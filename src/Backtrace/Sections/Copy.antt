-- ===== src/Backtrace/Sections/Copy.antt =====
-- The copy in memory, and the names that are compared.
use evos.Base.{
  ℕ, zero, suc, ◌+◌, ◌^◌, ◌≤◌, ◌<◌, ◌≡◌, ◌≢◌, ◌⊎◌, inl, inr, refl, ap, ◌∙◌, true, false, ◌==◌,
  if◌then◌else◌, List, [], ◌∷◌, All, u32, arith, Bool-cases,
}
use evos.Base.Memory.{Bytes}
use evos.Str.{strcmp}
use evos.Str.Laws.{IsByte, strcmp_iff}
use evos.Backtrace.Sections.{chars_at, copy_bytes}

-- Outside the `len` bytes from `dest` on.
abbrev pub IsApart : ℕ → ℕ → ℕ → Type 0
IsApart dest len a = (a < dest) ⊎ (dest + len ≤ a)

-- The copy does not overlap what it copies, and neither wraps around.
abbrev pub IsCopyable : ℕ → ℕ → ℕ → Type 0
IsCopyable dest src len =
    (dest + len < 2 ^ 32) × (src + len < 2 ^ 32) × ((src + len ≤ dest) ⊎ (dest + len ≤ src))

pub copy_bytes_outside :
    (memory : Bytes) (dest src len a : ℕ)
    → dest + len < 2 ^ 32
    → IsApart dest len a
    → copy_bytes memory dest src len a ≡ memory a
unfolding copy_bytes
copy_bytes_outside memory dest src zero a low apart = refl
copy_bytes_outside memory dest src (suc len) a low apart =
    let next : u32 (dest + 1) ≡ dest + 1 = omega arith in
    let other : (a == dest) ≡ false = ground arith in
    copy_bytes_outside (λ q. if q == dest then memory src else memory q) (u32 (dest + 1))
      (u32 (src + 1)) len a (omega arith) (omega arith)
    ∙ rw other refl

pub copy_bytes_inside :
    (memory : Bytes) (dest src len k : ℕ)
    → IsCopyable dest src len
    → k < len
    → copy_bytes memory dest src len (dest + k) ≡ memory (src + k)
unfolding copy_bytes
copy_bytes_inside memory dest src zero k room inside = absurd (omega arith)
copy_bytes_inside memory dest src (suc len) zero room inside =
    let next : u32 (dest + 1) ≡ dest + 1 = omega arith in
    let same : (dest + 0 == dest) ≡ true = ground arith in
    copy_bytes_outside (λ q. if q == dest then memory src else memory q) (u32 (dest + 1))
      (u32 (src + 1)) len (dest + 0) (omega arith) (omega arith)
    ∙ rw same (ap memory (omega arith))
copy_bytes_inside memory dest src (suc len) (suc k) room inside =
    let next : u32 (dest + 1) ≡ dest + 1 = omega arith in
    let next' : u32 (src + 1) ≡ src + 1 = omega arith in
    let at : dest + suc k ≡ u32 (dest + 1) + k = omega arith in
    let other : (u32 (src + 1) + k == dest) ≡ false = ground arith in
    ap
      (copy_bytes (λ q. if q == dest then memory src else memory q) (u32 (dest + 1)) (u32 (src + 1))
        len)
      at
    ∙ copy_bytes_inside (λ q. if q == dest then memory src else memory q) (u32 (dest + 1))
        (u32 (src + 1)) len k (omega arith) (omega arith)
    ∙ rw other (ap memory (omega arith))

chars_at_step :
    (m : Bytes) (count a : ℕ)
    → chars_at m (suc count) a ≡ (if m a == 0 then [] else m a ∷ chars_at m count (u32 (a + 1)))
unfolding chars_at
chars_at_step m count a = ground arith

pub chars_at_ext :
    (m n : Bytes) (count a : ℕ)
    → ((k : ℕ) → k < count → m (u32 (a + k)) ≡ n (u32 (a + k)))
    → a < 2 ^ 32
    → chars_at m count a ≡ chars_at n count a
unfolding chars_at
chars_at_ext m n zero a same low = refl
chars_at_ext m n (suc count) a same low =
    let at : u32 (a + 0) ≡ a = omega arith in
    let here : m a ≡ n a = rw at at (same 0 (omega arith)) in
    let rest =
      chars_at_ext m n count (u32 (a + 1))
        (λ k h.
          let next : u32 (u32 (a + 1) + k) ≡ u32 (a + suc k) = omega arith in
          rw next (same (suc k) (omega arith)))
        (omega arith) in
    rw (chars_at_step m count a, chars_at_step n count a, here, rest) refl

pub chars_at-IsByte :
    (m : Bytes) (count a : ℕ) → ((b : ℕ) → m b < 256) → All IsByte (chars_at m count a)
unfolding chars_at
chars_at-IsByte m zero a bytes = tt
chars_at-IsByte m (suc count) a bytes = elim (Bool-cases (m a == 0)) [
  | inl e ↦ rw (chars_at_step m count a, e) tt
  | inr e ↦
      rw (chars_at_step m count a, e)
        ((ground arith, bytes a), chars_at-IsByte m count (u32 (a + 1)) bytes)
]

pub strcmp-yes : (a b : List ℕ) → All IsByte a → All IsByte b → a ≡ b → (strcmp a b == 0) ≡ true
strcmp-yes a b h k e = let z = (strcmp_iff a b h k).1 e in ground arith

pub strcmp-no : (a b : List ℕ) → All IsByte a → All IsByte b → a ≢ b → (strcmp a b == 0) ≡ false
strcmp-no a b h k ne = elim (Bool-cases (strcmp a b == 0)) [
  | inl e ↦ let z : strcmp a b ≡ 0 = ground arith in absurd (ne ((strcmp_iff a b h k).0 z))
  | inr e ↦ e
]
