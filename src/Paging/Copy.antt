-- ===== src/Paging/Copy.antt =====
-- Copies through the cloning buffer reach the physical frame that they are meant for.
use evos.Base.{
  ℕ, zero, suc, ◌+◌, ◌-◌, ◌/◌, ◌%◌, ◌^◌, ◌≤◌, ◌<◌, ◌≡◌, ◌≢◌, refl, sym, ap, ◌∙◌, ◌⊎◌, inl, true,
  false, some, List, ok, panic, arith, length, get_or, set, get_or-set_self, get_or-set_ne,
  ℕ_discrete, ltb, u32,
}
use evos.Paging.{Page, zero_page, PagePtr, Paging, update, page_at, write_page, page_cloning_buffer}
use evos.Paging.Lookup.{update_lem, pages_in, pages_in-some}
use evos.Paging.Access.{
  translate, load_virtual, store_virtual, memcpy_virtual, point_buffer, mm_memcpy_physical,
}

module _ {Allocator : Type 0} where
  -- All addresses of a virtual page stand for a frame.
  abbrev IsMappedTo : Paging Allocator → ℕ → ℕ → Type 0
  IsMappedTo s base frame =
      (k : ℕ) → k < 4096 → translate s s.current_directory (base + k) ≡ some frame

  abbrev with_ram : Paging Allocator → (ℕ → ℕ → ℕ) → Paging Allocator
  with_ram s r = record s { ram = r }

  translate-with_ram :
      (s : Paging Allocator) (r : ℕ → ℕ → ℕ) (dir address : ℕ)
      → translate (with_ram s r) dir address ≡ translate s dir address
  unfolding translate
  translate-with_ram s r dir address = refl

  load_at :
      (s : Paging Allocator) (base frame o : ℕ)
      → base % 4096 ≡ 0
      → IsMappedTo s base frame
      → o < 4096
      → load_virtual s (base + o) ≡ ok (s.ram frame o)
  unfolding load_virtual
  load_at s base frame o aligned at h =
      let offset : (base + o) % 4096 ≡ o = omega arith in rw (at o h, offset) refl

  store_at :
      (s : Paging Allocator) (base frame o byte : ℕ)
      → base % 4096 ≡ 0
      → IsMappedTo s base frame
      → o < 4096
      → store_virtual s (base + o) byte
        ≡ ok (with_ram s (update s.ram frame (update (s.ram frame) o byte)))
  unfolding store_virtual
  store_at s base frame o byte aligned at h =
      let offset : (base + o) % 4096 ≡ o = omega arith in rw (at o h, offset) refl

  -- A copy of bytes `o` to `o + num` of a page to the same place of a page with another frame.
  pub memcpy_virtual_lem :
      (num o p a b f g : ℕ) (s : Paging Allocator)
      → a % 4096 ≡ 0
      → b % 4096 ≡ 0
      → IsMappedTo s a f
      → IsMappedTo s b g
      → f ≢ g
      → o + num ≤ 4096
      → p + num ≤ 4096
      → (r : ℕ → ℕ → ℕ) × (memcpy_virtual (b + p) (a + o) num s ≡ ok (with_ram s r))
        × ((h : ℕ) → h ≢ g → r h ≡ s.ram h)
        × ((k : ℕ) → k < num → r g (p + k) ≡ s.ram f (o + k))
        × ((k : ℕ) → (k < p) ⊎ (p + num ≤ k) → r g k ≡ s.ram g k)
  unfolding memcpy_virtual
  memcpy_virtual_lem zero o p a b f g s a0 b0 from to ne room room' =
      (s.ram, refl, λ h n. refl, λ k h. absurd (omega arith), λ k h. refl)
  memcpy_virtual_lem (suc num) o p a b f g s a0 b0 from to ne room room' =
      let byte = s.ram f o in
      let r1 = update s.ram g (update (s.ram g) p byte) in
      let (r, run, others, copied, outside) =
        memcpy_virtual_lem num (o + 1) (p + 1) a b f g (with_ram s r1) a0 b0
          (λ k h. translate-with_ram s r1 s.current_directory (a + k) ∙ from k h)
          (λ k h. translate-with_ram s r1 s.current_directory (b + k) ∙ to k h) ne (omega arith)
          (omega arith) in
      let written = update_lem s.ram g (update (s.ram g) p byte) in
      let cell = λ (k : ℕ). ap (λ (u : ℕ → ℕ). u k) ((written g).0 refl) in
      let cells = update_lem (s.ram g) p byte in
      let next : b + p + 1 ≡ b + (p + 1) = omega arith in
      let next' : a + o + 1 ≡ a + (o + 1) = omega arith in
      (
        r,
        rw
            (
              load_at s a f o a0 from (omega arith),
              store_at s b g p byte b0 to (omega arith),
              next,
              next',
            )
            run,
        λ h other. others h other ∙ (written h).1 other,
        λ k h. elim (ℕ_discrete k 0) [
          | yes z ↦
              let at : p + k ≡ p = omega arith in
              let from_here : o + k ≡ o = omega arith in
              rw (at, from_here) (outside p (inl (omega arith)) ∙ cell p ∙ (cells p).0 refl)
          | no n ↦
              let at : p + k ≡ p + 1 + (k - 1) = omega arith in
              let from_here : o + k ≡ o + 1 + (k - 1) = omega arith in
              rw (at, from_here)
                (copied (k - 1) (omega arith)
                  ∙ ap (λ (u : ℕ → ℕ). u (o + 1 + (k - 1))) ((written f).1 ne))
        ],
        λ k h. outside k (omega arith) ∙ cell k ∙ (cells k).1 (λ e. omega arith),
      )

  pub page_at-write_page :
      (s : Paging Allocator) (t i : ℕ) (page : Page)
      → i < length (s.table_at t)
      → page_at (write_page (t, i) page s) (t, i) ≡ page
  page_at-write_page s t i page h =
      ap (λ (u : List Page). get_or u i zero_page)
        ((update_lem s.table_at t (set (s.table_at t) i page) t).0 refl)
      ∙ get_or-set_self (s.table_at t) i page zero_page h

  pub page_at-write_page_ne :
      (s : Paging Allocator) (t i u j : ℕ) (page : Page)
      → (u ≡ t → j ≢ i)
      → page_at (write_page (t, i) page s) (u, j) ≡ page_at s (u, j)
  page_at-write_page_ne s t i u j page ne = elim (ℕ_discrete u t) [
    | yes e ↦
        ap (λ (v : List Page). get_or v j zero_page)
          ((update_lem s.table_at t (set (s.table_at t) i page) u).0 e)
        ∙ get_or-set_ne (s.table_at t) i j page zero_page (λ f. ne e (sym f))
        ∙ ap (λ (v : ℕ). page_at s (v, j)) (sym e)
    | no other ↦
        ap (λ (v : List Page). get_or v j zero_page)
          ((update_lem s.table_at t (set (s.table_at t) i page) u).1 other)
  ]

  -- The frame of a page that its directory has.
  translate_page :
      (s : Paging Allocator) (base t i frame : ℕ)
      → base % 4096 ≡ 0
      → pages_in (s.directory_at s.current_directory) base ≡ some (t, i)
      → (page_at s (t, i)).present ≡ true
      → (page_at s (t, i)).address ≡ frame
      → IsMappedTo s base frame
  unfolding translate
  translate_page s base t i frame aligned at present address k h =
      let d = s.directory_at s.current_directory in
      let (table, nonzero, index) = pages_in-some d base t i at in
      let same : (base + k) / 4096 ≡ base / 4096 = omega arith in
      rw (same, table, index) (ground arith)

  -- The state in which the cloning buffer stands for a frame.
  abbrev pub pointed_to : Paging Allocator → PagePtr → ℕ → Paging Allocator
  pointed_to s ptr frame =
      write_page ptr (record (page_at s ptr) { address = frame; present = true }) s

  point_buffer_lem :
      (s : Paging Allocator) (ptr : PagePtr) (dest : ℕ)
      → s.cloning_buffer_page ≡ some ptr
      → dest < 2 ^ 32
      → point_buffer dest s ≡ ok (pointed_to s ptr (dest / 4096))
  unfolding point_buffer
  point_buffer_lem s ptr dest e h =
      let whole : dest / 4096 % 2 ^ 20 ≡ dest / 4096 = omega arith in rw (e, whole) refl

  -- mm_memcpy_physical, with the cloning buffer in place, a physical address below 2 ^ 32 and a
  -- source within one present page other than the buffer, whose frame is not the target's: a copy
  -- that crosses the end of the target's frame panics; any other ends, with the bytes in the frame
  -- of the target and no other byte of memory changed.
  pub mm_memcpy_physical_lem :
      (s : Paging Allocator) (dest src size bt bi t i f : ℕ)
      → s.cloning_buffer_page ≡ some (bt, bi)
      → pages_in (s.directory_at s.current_directory) page_cloning_buffer ≡ some (bt, bi)
      → bi < length (s.table_at bt)
      → pages_in (s.directory_at s.current_directory) (src - src % 4096) ≡ some (t, i)
      → (t ≡ bt → i ≢ bi)
      → (page_at s (t, i)).present ≡ true
      → (page_at s (t, i)).address ≡ f
      → f ≢ dest / 4096
      → dest < 2 ^ 32
      → src % 4096 + size ≤ 4096
      → (4096 < dest % 4096 + size → mm_memcpy_physical dest src size s ≡ panic)
        × (dest % 4096 + size ≤ 4096
            → (r : ℕ → ℕ → ℕ) × (mm_memcpy_physical dest src size s
                ≡ ok (with_ram (pointed_to s (bt, bi) (dest / 4096)) r))
              × ((h : ℕ) → h ≢ dest / 4096 → r h ≡ s.ram h)
              × ((k : ℕ) → k < size → r (dest / 4096) (dest % 4096 + k) ≡ s.ram f (src % 4096 + k))
              × ((k : ℕ)
                  → (k < dest % 4096) ⊎ (dest % 4096 + size ≤ k)
                  → r (dest / 4096) k ≡ s.ram (dest / 4096) k))
  unfolding mm_memcpy_physical
  mm_memcpy_physical_lem s dest src size bt bi t i f buffer at inside at' ne present address other
        low within =
      (
        λ over. ground arith,
        λ fits.
            let page = record (page_at s (bt, bi)) { address = dest / 4096; present = true } in
            let there = page_at-write_page s bt bi page inside in
            let here = page_at-write_page_ne s bt bi t i page ne in
            let u = pointed_to s (bt, bi) (dest / 4096) in
            let (r, run, others, copied, outside) =
              memcpy_virtual_lem size (src % 4096) (dest % 4096) (src - src % 4096)
                page_cloning_buffer f (dest / 4096) u (omega arith) refl
                (translate_page u (src - src % 4096) t i f (omega arith) at'
                  (ap (λ (q : Page). q.present) here ∙ present)
                  (ap (λ (q : Page). q.address) here ∙ address))
                (translate_page u page_cloning_buffer bt bi (dest / 4096) refl at
                  (ap (λ (q : Page). q.present) there) (ap (λ (q : Page). q.address) there))
                other within fits in
            let short : ltb 0x1000 (u32 (dest % 4096 + size)) ≡ false = ground arith in
            let source : src - src % 4096 + src % 4096 ≡ src = omega arith in
            (
              r,
              rw (short, point_buffer_lem s (bt, bi) dest buffer low) (rw source at run),
              others,
              copied,
              outside,
            ),
      )
