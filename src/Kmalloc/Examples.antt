-- ===== src/Kmalloc/Examples.antt =====
-- kmalloc before the heap exists, at concrete inputs.
use evos.Base.{ℕ, ◌≡◌, refl, Bool, true, false, Option, none, Result, ok, List, [], ◌∷◌, arith}
use evos.Kmalloc.{Kernel}
use evos.Kmalloc.Laws.{kmalloc_all, kmalloc_all-IsLaidOut, IsLaidOut}

abbrev no_pages : ℕ → Bool → Bool → Unit {0} → Result (Unit {0})
no_pages addr kernel_mode writeable p = ok p

abbrev no_address : Unit {0} → ℕ → Option ℕ
no_address p address = none

abbrev early : Kernel (Unit {0})
early = record { kernel_heap = none; mem_first_unused = 0x100800 }

kmalloc_all-IsLaidOut_example :
    (blocks : List (ℕ × ℕ)) × (k : Kernel (Unit {0})) × (kmalloc_all no_pages no_address
        ((8196, true) ∷ (4, false) ∷ [])
        early
      ≡ ok (blocks, k))
    × IsLaidOut 0x100800 ((8196, true) ∷ (4, false) ∷ []) blocks k.mem_first_unused
    × (k.kernel_heap ≡ none)
kmalloc_all-IsLaidOut_example =
    kmalloc_all-IsLaidOut no_pages no_address ((8196, true) ∷ (4, false) ∷ []) early refl
      (omega arith)
