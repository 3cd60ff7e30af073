-- ===== src/Paging/Identity/Rounds.antt =====
-- One round of the loop of init_paging that maps memory to itself.
use evos.Base.{
  ℕ, suc, ◌*◌, ◌/◌, ◌%◌, ◌^◌, ◌≤◌, ◌<◌, ◌≡◌, ◌≢◌, refl, sym, ap, ◌∙◌, inl, inr, Bool, true, false,
  some, Result, ok, arith, length, length-set, get_or, set, get_or-set_self, get_or-set_ne,
  ℕ_discrete, dec_lt, ◌==◌,
}
use evos.Bitset.Laws.{IsValid}
use evos.Frame.{FrameAllocator}
use evos.Frame.Laws.{in_use, IsAllocated}
use evos.Paging.{
  Page, zero_page, Paging, PageTable, page_at, write_page, update, page_alloc_at, get_page,
}
use evos.Paging.Alloc.{with_frame, page_alloc_lem}
use evos.Paging.Copy.{page_at-write_page}
use evos.Paging.Lookup.{update_lem}
use evos.Paging.Init.{identity_map_page}

-- The first `n` pages of a table stand for the first `n` frames, and these are in use; the other pages
-- have no frame, and all other frames are free.
pub record IsIdentity (table : PageTable) (frames : FrameAllocator) (n : ℕ) : Type 0 where
  pub size : length table ≡ 1024
  pub address : (k : ℕ) → k < n → (get_or table k zero_page).address ≡ k
  pub present : (k : ℕ) → k < n → (get_or table k zero_page).present ≡ true
  pub blank : (k : ℕ) → n ≤ k → (get_or table k zero_page).address ≡ 0
  pub valid : IsValid frames.frames
  pub few : frames.frames.size ≤ 2 ^ 15
  pub enough : 32 ≤ frames.frames.size
  pub used : (j : ℕ) → j < n → in_use frames j ≡ 1
  pub free : (j : ℕ) → n ≤ j → in_use frames j ≡ 0

-- The least free frame is the next one.
next_frame :
    (table : PageTable) (frames frames' : FrameAllocator) (n frame : ℕ)
    → IsIdentity table frames n
    → IsAllocated frames frame frames'
    → frame ≡ n
next_frame table frames frames' n frame v done = elim (dec_lt frame n) [
  | yes less ↦ absurd (omega (arith, v.used frame less, done.first.free))
  | no more ↦ elim (dec_lt n frame) [
    | yes past ↦ absurd (omega (arith, v.free n (omega arith), done.first.below n past))
    | no same ↦ omega arith
  ]
]

next_page-IsIdentity :
    (table : PageTable) (frames frames' : FrameAllocator) (n : ℕ)
    → IsIdentity table frames n
    → IsAllocated frames n frames'
    → n < 1024
    → IsIdentity (set table n (with_frame (get_or table n zero_page) true n)) frames' (suc n)
next_page-IsIdentity table frames frames' n v done inside =
    let page = with_frame (get_or table n zero_page) true n in
    let here = get_or-set_self table n page zero_page (omega (arith, v.size)) in
    let there = λ (k : ℕ). get_or-set_ne table n k page zero_page in
    record {
      size = length-set table n page ∙ v.size;
      address = λ k h. elim (ℕ_discrete k n) [
        | yes e ↦
            ap (λ i. (get_or (set table n page) i zero_page).address) e
            ∙ ap (λ (q : Page). q.address) here
            ∙ sym e
        | no ne ↦
            ap (λ (q : Page). q.address) (there k (λ e. ne (sym e))) ∙ v.address k (omega arith)
      ];
      present = λ k h. elim (ℕ_discrete k n) [
        | yes e ↦
            ap (λ i. (get_or (set table n page) i zero_page).present) e
            ∙ ap (λ (q : Page). q.present) here
        | no ne ↦
            ap (λ (q : Page). q.present) (there k (λ e. ne (sym e))) ∙ v.present k (omega arith)
      ];
      blank = λ k h.
          ap (λ (q : Page). q.address) (there k (λ e. omega arith)) ∙ v.blank k (omega arith);
      valid = done.valid;
      few = omega (arith, done.same_size, v.few);
      enough = omega (arith, done.same_size, v.enough);
      used = λ j h. elim (ℕ_discrete j n) [
        | yes e ↦ ap (in_use frames') e ∙ done.taken
        | no ne ↦ done.others j ne ∙ v.used j (omega arith)
      ];
      free = λ j h. done.others j (λ e. omega arith) ∙ v.free j (omega arith);
    }

module _ {Allocator : Type 0}
    (kmalloc_ap : ℕ → Paging Allocator → Result (ℕ × ℕ × Paging Allocator)) where
  pub get_page_there :
      (s : Paging Allocator) (dir table n : ℕ) (create : Bool)
      → get_or (s.directory_at dir).tables 0 0 ≡ table
      → table ≢ 0
      → n < 1024
      → get_page kmalloc_ap (n * 4096) create dir s ≡ ok (some (table, n), s)
  unfolding get_page
  get_page_there s dir table n create entry ne inside =
      let zero_index : n * 4096 / 4096 / 1024 ≡ 0 = omega arith in
      let index : n * 4096 / 4096 % 1024 ≡ n = omega arith in
      let test : (table == 0) ≡ false = ground arith in rw (zero_index, index, entry, test) refl

  next_alloc :
      (s : Paging Allocator) (table n : ℕ)
      → IsIdentity (s.table_at table) s.frames n
      → n < 1024
      → (frames' : FrameAllocator) × IsAllocated s.frames n frames'
        × (page_alloc_at (table, n) false true s
            ≡ ok (
                write_page
                  (table, n)
                  (with_frame (page_at s (table, n)) true n)
                  (record s { frames = frames' })))
  unfolding page_alloc_at
  next_alloc s table n v inside =
      let page = page_at s (table, n) in
      elim ((page_alloc_lem s.frames page false true v.valid v.few).1 (v.blank n (omega arith))) [
        | inl (stops, all) ↦
            absurd (omega (arith, all n (omega (arith, v.enough)), v.free n (omega arith)))
        | inr (frame, frames', e, done) ↦
            let same = next_frame (s.table_at table) s.frames frames' n frame v done in
            (frames', rw same at done, rw (e, same) refl)
      ]

  -- One round.
  pub identity_map_page_lem :
      (s : Paging Allocator) (dir table n : ℕ)
      → get_or (s.directory_at dir).tables 0 0 ≡ table
      → table ≢ 0
      → IsIdentity (s.table_at table) s.frames n
      → n < 1024
      → (frames' : FrameAllocator) × (tables : ℕ → PageTable) × (identity_map_page kmalloc_ap
            (n * 4096)
            dir
            s
          ≡ ok (record s { frames = frames'; table_at = tables }))
        × IsIdentity (tables table) frames' (suc n)
        × ((t : ℕ) → t ≢ table → tables t ≡ s.table_at t)
  unfolding identity_map_page
  identity_map_page_lem s dir table n entry ne v inside =
      let (frames', done, allocated) = next_alloc s table n v inside in
      let page = with_frame (page_at s (table, n)) true n in
      let written = write_page (table, n) page (record s { frames = frames' }) in
      let stored = update_lem s.table_at table (set (s.table_at table) n page) in
      let index : n * 4096 / 4096 ≡ n = omega arith in
      let address : (page_at written (table, n)).address ≡ n =
        ap (λ (q : Page). q.address) (page_at-write_page s table n page (omega (arith, v.size))) in
      let test : ((page_at written (table, n)).address == n * 4096 / 4096) ≡ true = ground arith in
      (
        frames',
        update s.table_at table (set (s.table_at table) n page),
        rw (get_page_there s dir table n true entry ne inside, allocated, test) refl,
        rw ((stored table).0 refl)
            (next_page-IsIdentity (s.table_at table) s.frames frames' n v done inside),
        λ t other. (stored t).1 other,
      )
