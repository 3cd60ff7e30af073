-- ===== src/Paging/Lookup.antt =====
-- The page that a directory has for an address, and the stores by address.
use evos.Base.{
  ℕ, ◌/◌, ◌%◌, ◌<◌, ◌≡◌, ◌≢◌, refl, sym, ◌∙◌, ◌==◌, if◌then◌else◌, List, Option, none, some, arith,
  length, get_or, set, get_or-set_self, get_or-set_ne, ℕ_discrete,
}
use evos.Paging.{PagePtr, PageDirectory, update}

pub update_lem {ℓ} :
    {A : Type ℓ} (f : ℕ → A) (a : ℕ) (v : A) (x : ℕ)
    → (x ≡ a → update f a v x ≡ v) × (x ≢ a → update f a v x ≡ f x)
update_lem f a v x = (λ e. ground arith, λ ne. ground arith)

-- The page that a directory has for an address.
abbrev pub pages_in : PageDirectory → ℕ → Option PagePtr
pages_in d address =
    let number = address / 4096 in
    if get_or d.tables (number / 1024) 0 == 0
    then none
    else some (get_or d.tables (number / 1024) 0, number % 1024)

pub pages_in-some :
    (d : PageDirectory) (address t k : ℕ)
    → pages_in d address ≡ some (t, k)
    → (get_or d.tables (address / 4096 / 1024) 0 ≡ t) × (t ≢ 0) × (address / 4096 % 1024 ≡ k)
pages_in-some d address t k e = elim (ℕ_discrete (get_or d.tables (address / 4096 / 1024) 0) 0) [
  | yes z ↦ absurd (ground arith)
  | no ne ↦
      let shown : ◌≡◌ {A = Option PagePtr}
          (some (get_or d.tables (address / 4096 / 1024) 0, address / 4096 % 1024)) (some (t, k)) =
        ground arith in
      let table : get_or d.tables (address / 4096 / 1024) 0 ≡ t = cc in
      (table, λ z. ne (table ∙ z), cc)
]

pub pages_in-none :
    (d : PageDirectory) (b : ℕ) → get_or d.tables (b / 4096 / 1024) 0 ≡ 0 → pages_in d b ≡ none
pages_in-none d b e = rw e refl

pub pages_in_here :
    (d : PageDirectory) (b : ℕ)
    → get_or d.tables (b / 4096 / 1024) 0 ≢ 0
    → pages_in d b ≡ some (get_or d.tables (b / 4096 / 1024) 0, b / 4096 % 1024)
pages_in_here d b ne = ground arith

pub pages_in_table :
    (d : PageDirectory) (b t : ℕ)
    → get_or d.tables (b / 4096 / 1024) 0 ≡ t
    → t ≢ 0
    → pages_in d b ≡ some (t, b / 4096 % 1024)
pages_in_table d b t e ne = rw e (ground arith)

pub pages_in_zero :
    (d : PageDirectory) (b : ℕ) → pages_in d b ≡ none → get_or d.tables (b / 4096 / 1024) 0 ≡ 0
pages_in_zero d b e = ground arith

pub pages_in_same :
    (d d' : PageDirectory) (b : ℕ)
    → get_or d'.tables (b / 4096 / 1024) 0 ≡ get_or d.tables (b / 4096 / 1024) 0
    → pages_in d' b ≡ pages_in d b
pages_in_same d d' b e = rw e refl

pub get_or-set_if :
    (xs : List ℕ) (i j v : ℕ)
    → i < length xs
    → (j ≡ i → get_or (set xs i v) j 0 ≡ v) × (j ≢ i → get_or (set xs i v) j 0 ≡ get_or xs j 0)
get_or-set_if xs i j v h =
    (λ e. rw e (get_or-set_self xs i v 0 h), λ ne. get_or-set_ne xs i j v 0 (λ e. ne (sym e)))
