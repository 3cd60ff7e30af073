-- ===== src/Paging/Clone/Loop.antt =====
-- The loop over the entries of a directory that is cloned.
use evos.Base.{
  ℕ, zero, suc, ◌+◌, ◌≤◌, ◌<◌, ◌≡◌, ◌≢◌, refl, sym, ap, ◌∙◌, Result, ok, ◌>>=◌, first_part,
  ok_injective, ℕ_discrete, arith, length, length-set, get_or, set, bit_or,
}
use evos.Paging.{PageDirectory, Paging}
use evos.Paging.Lookup.{update_lem, get_or-set_if}
use evos.Paging.Laws.{IsAllocator}
use evos.Paging.Clone.{set_entry, clone_table, clone_entry, clone_entries}
use evos.Paging.Clone.Table.{clone_table-IsTableCloned}

-- An entry of the clone, its table and its physical address, against the source's: missing where
-- that is missing, the same where it is the kernel's, and a new table everywhere else.
abbrev pub IsEntry :
    {Allocator : Type 0} (owned : Allocator → ℕ → Type 0) (source kernel : PageDirectory)
    → Allocator
    → ℕ
    → ℕ
    → ℕ
    → Type 0
IsEntry owned source kernel start j table physical =
    (get_or source.tables j 0 ≡ 0 → table ≡ 0)
    × (get_or source.tables j 0 ≢ 0
        → get_or kernel.tables j 0 ≡ get_or source.tables j 0
        → (table ≡ get_or source.tables j 0) × (physical ≡ get_or source.tables_physical_addr j 0))
    × (get_or source.tables j 0 ≢ 0
        → get_or kernel.tables j 0 ≢ get_or source.tables j 0
        → (table ≢ 0) × ¬ owned start table)

module _ {Allocator : Type 0}
    (kmalloc_ap : ℕ → Paging Allocator → Result (ℕ × ℕ × Paging Allocator))
    (owned : Allocator → ℕ → Type 0) (room : Allocator → ℕ → Type 0)
    (laws : IsAllocator kmalloc_ap owned room) where
  -- The three branches of a round.
  abbrev entry_of : Paging Allocator → ℕ → ℕ → ℕ
  entry_of s dir i = get_or (s.directory_at dir).tables i 0

  clone_entry_missing :
      (src dir i : ℕ) (s : Paging Allocator)
      → entry_of s src i ≡ 0
      → clone_entry kmalloc_ap src dir i s ≡ ok s
  unfolding clone_entry
  clone_entry_missing src dir i s z = ground arith

  clone_entry_shared :
      (src dir i : ℕ) (s : Paging Allocator)
      → entry_of s src i ≢ 0
      → entry_of s s.kernel_directory i ≡ entry_of s src i
      → clone_entry kmalloc_ap src dir i s
        ≡ ok (
            set_entry dir i
              (entry_of s src i)
              (get_or (s.directory_at src).tables_physical_addr i 0)
              s)
  unfolding clone_entry
  clone_entry_shared src dir i s ne same = ground arith

  clone_entry_copied :
      (src dir i : ℕ) (s : Paging Allocator)
      → entry_of s src i ≢ 0
      → entry_of s s.kernel_directory i ≢ entry_of s src i
      → clone_entry kmalloc_ap src dir i s ≡ (
          clone_table kmalloc_ap i (entry_of s src i) s >>= λ r.
          ok (set_entry dir i r.0 (bit_or r.1 7) r.2))
  unfolding clone_entry
  clone_entry_copied src dir i s ne other = ground arith

  module _ (source kernel : PageDirectory) (start : Allocator) where
    -- The state before round `i` of the loop.
    pub record IsCloning (src dir kernel_dir i left : ℕ) (s : Paging Allocator) : Type 0 where
      pub same_source : s.directory_at src ≡ source
      pub kernel_is : s.kernel_directory ≡ kernel_dir
      pub same_kernel : s.directory_at kernel_dir ≡ kernel
      pub size : length (s.directory_at dir).tables ≡ 1024
      pub size_physical : length (s.directory_at dir).tables_physical_addr ≡ 1024
      pub kept : (a : ℕ) → owned start a → owned s.allocator a
      pub more : room s.allocator left
      pub done :
          (j : ℕ)
          → j < i
          → IsEntry owned source kernel start j
              (get_or (s.directory_at dir).tables j 0)
              (get_or (s.directory_at dir).tables_physical_addr j 0)
      pub rest : (j : ℕ) → i ≤ j → get_or (s.directory_at dir).tables j 0 ≡ 0

    abbrev with_entry : PageDirectory → ℕ → ℕ → ℕ → PageDirectory
    with_entry d i table physical = record d {
      tables = set d.tables i table;
      tables_physical_addr = set d.tables_physical_addr i physical;
    }

    module _ (src dir kernel_dir : ℕ) (not_source : dir ≢ src) (not_kernel : dir ≢ kernel_dir) where
      set_entry-IsCloning :
          (i left table physical : ℕ) (s t : Paging Allocator)
          → i < 1024
          → IsCloning src dir kernel_dir i (suc left) s
          → t.directory_at ≡ s.directory_at
          → t.kernel_directory ≡ s.kernel_directory
          → ((a : ℕ) → owned s.allocator a → owned t.allocator a)
          → room t.allocator left
          → IsEntry owned source kernel start i table physical
          → IsCloning src dir kernel_dir (i + 1) left (set_entry dir i table physical t)
      set_entry-IsCloning i left table physical s t small inv directories kernels kept more entry =
          let c = s.directory_at dir in
          let stored : (set_entry dir i table physical t).directory_at dir
              ≡ with_entry c i table physical =
            (update_lem t.directory_at dir (with_entry (t.directory_at dir) i table physical) dir).0
              refl
            ∙ ap (λ (f : ℕ → PageDirectory). with_entry (f dir) i table physical) directories in
          let other = λ (o : ℕ) (ne : o ≢ dir).
            (update_lem t.directory_at dir (with_entry (t.directory_at dir) i table physical) o).1
              ne
            ∙ ap (λ (f : ℕ → PageDirectory). f o) directories in
          let entries = λ (j : ℕ). get_or-set_if c.tables i j table (omega (arith, inv.size)) in
          let physicals = λ (j : ℕ).
            get_or-set_if c.tables_physical_addr i j physical (omega (arith, inv.size_physical)) in
          record {
            same_source = other src (λ e. not_source (sym e)) ∙ inv.same_source;
            kernel_is = kernels ∙ inv.kernel_is;
            same_kernel = other kernel_dir (λ e. not_kernel (sym e)) ∙ inv.same_kernel;
            size = rw stored (length-set c.tables i table ∙ inv.size);
            size_physical =
                rw stored (length-set c.tables_physical_addr i physical ∙ inv.size_physical);
            kept = λ a old. kept a (inv.kept a old);
            more = more;
            done = λ j h. rw stored (elim (ℕ_discrete j i) [
              | yes e ↦ rw ((entries j).0 e, (physicals j).0 e) (rw e entry)
              | no ne ↦ rw ((entries j).1 ne, (physicals j).1 ne) (inv.done j (omega arith))
            ]);
            rest = λ j h.
                rw stored ((entries j).1 (λ e. omega (arith, e, h)) ∙ inv.rest j (omega arith));
          }

      skip-IsCloning :
          (i left : ℕ) (s : Paging Allocator)
          → get_or source.tables i 0 ≡ 0
          → IsCloning src dir kernel_dir i (suc left) s
          → IsCloning src dir kernel_dir (i + 1) left s
      skip-IsCloning i left s missing inv = record {
        same_source = inv.same_source;
        kernel_is = inv.kernel_is;
        same_kernel = inv.same_kernel;
        size = inv.size;
        size_physical = inv.size_physical;
        kept = inv.kept;
        more = laws.fewer s.allocator left inv.more;
        done = λ j h. elim (ℕ_discrete j i) [
          | yes e ↦
              rw e (
                λ z. inv.rest i (omega arith),
                λ ne. absurd (ne missing),
                λ ne. absurd (ne missing),
              )
          | no ne ↦ inv.done j (omega arith)
        ];
        rest = λ j h. inv.rest j (omega arith);
      }

      clone_entry-IsCloning :
          (i left : ℕ) (s s' : Paging Allocator)
          → i < 1024
          → clone_entry kmalloc_ap src dir i s ≡ ok s'
          → IsCloning src dir kernel_dir i (suc left) s
          → IsCloning src dir kernel_dir (i + 1) left s'
      clone_entry-IsCloning i left s s' small e inv =
          let here : entry_of s src i ≡ get_or source.tables i 0 =
            ap (λ (d : PageDirectory). get_or d.tables i 0) inv.same_source in
          let mine : entry_of s s.kernel_directory i ≡ get_or kernel.tables i 0 =
            ap (λ (k : ℕ). entry_of s k i) inv.kernel_is
            ∙ ap (λ (d : PageDirectory). get_or d.tables i 0) inv.same_kernel in
          let address =
            ap (λ (d : PageDirectory). get_or d.tables_physical_addr i 0) inv.same_source in
          elim (ℕ_discrete (entry_of s src i) 0) [
            | yes z ↦
                rw (ok_injective (sym (sym (clone_entry_missing src dir i s z) ∙ e)))
                  (skip-IsCloning i left s (sym here ∙ z) inv)
            | no ne ↦ elim (ℕ_discrete (entry_of s s.kernel_directory i) (entry_of s src i)) [
              | yes same ↦
                  rw (ok_injective (sym (sym (clone_entry_shared src dir i s ne same) ∙ e))) (
                    set_entry-IsCloning i left (entry_of s src i)
                      (get_or (s.directory_at src).tables_physical_addr i 0) s s small inv refl refl
                      (λ a old. old) (laws.fewer s.allocator left inv.more)
                      (
                        λ z. here ∙ z,
                        λ present shared. (here, address),
                        λ present other. absurd (other (sym mine ∙ same ∙ here)),
                      ))
              | no other ↦
                  let e0 = sym (clone_entry_copied src dir i s ne other) ∙ e in
                  let ((dest, physical, t), cloned, e1) =
                    first_part (clone_table kmalloc_ap i (entry_of s src i) s) _ e0 in
                  let copy =
                    clone_table-IsTableCloned kmalloc_ap owned room laws i (entry_of s src i) dest
                      physical left s t inv.more cloned in
                  rw (ok_injective (sym e1)) (
                    set_entry-IsCloning i left dest (bit_or physical 7) s t small inv
                      copy.directories copy.kernel copy.kept copy.more
                      (
                        λ z. absurd (ne (here ∙ z)),
                        λ present shared. absurd (other (mine ∙ shared ∙ sym here)),
                        λ present different. (copy.nonzero, λ old. copy.unused (inv.kept dest old)),
                      ))
            ]
          ]

      pub clone_entries-IsCloning :
          (rounds i : ℕ) (s s' : Paging Allocator)
          → i + rounds ≡ 1024
          → clone_entries kmalloc_ap rounds src dir i s ≡ ok s'
          → IsCloning src dir kernel_dir i rounds s
          → IsCloning src dir kernel_dir 1024 0 s'
      unfolding clone_entries
      clone_entries-IsCloning zero i s s' whole e inv =
          let end : i ≡ 1024 = omega arith in rw (sym (ok_injective e)) (rw end at inv)
      clone_entries-IsCloning (suc rounds) i s s' whole e inv =
          let (t, one, e1) = first_part (clone_entry kmalloc_ap src dir i s) _ e in
          clone_entries-IsCloning rounds (i + 1) t s' (omega arith) e1
            (clone_entry-IsCloning i rounds s t (omega arith) one inv)
