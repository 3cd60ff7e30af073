-- ===== src/Paging/Identity.antt =====
-- The second loop of init_paging: the memory in use so far is mapped to itself.
pub mod Rounds
mod Examples
use evos.Base.{
  ℕ, zero, suc, ◌+◌, ◌-◌, ◌*◌, ◌/◌, ◌%◌, ◌^◌, ◌≤◌, ◌<◌, ◌≡◌, ◌≢◌, refl, sym, ap, ◌∙◌, inl, inr,
  Bool, true, false, some, Result, ok, panic, ◌>>=◌, checked, assert, arith, length, length-set,
  length-replicate, get_or, set, get_or-replicate, get_or-set_self, get_or-set_ne, ℕ_discrete,
  dec_lt, ltb, u32, ◌==◌, Bool-cases,
}
use evos.Bitset.Laws.{IsValid}
use evos.Frame.{FrameAllocator}
use evos.Frame.Laws.{in_use, IsAllocated}
use evos.Paging.{
  Page, zero_page, zero_table, Paging, PagePtr, PageTable, PageDirectory, page_at, write_page,
  update, page_alloc, page_alloc_at, get_page,
}
use evos.Paging.Access.{translate}
use evos.Paging.Alloc.{with_frame, page_alloc_lem}
use evos.Paging.Copy.{page_at-write_page, page_at-write_page_ne}
use evos.Paging.Lookup.{update_lem, get_or-set_if}
use evos.Paging.Laws.{IsAllocator, IsGiven, IsDirectory, get_page_new, extended, with_table}
use evos.Paging.Init.{identity_map_page, identity_map}
use evos.Paging.Identity.Rounds.{IsIdentity, get_page_there, identity_map_page_lem}

-- The pages up to an address.
abbrev pub pages_below : ℕ → ℕ
pages_below bound = (bound + 4095) / 4096

module _ {Allocator : Type 0}
    (kmalloc_ap : ℕ → Paging Allocator → Result (ℕ × ℕ × Paging Allocator))
    (first_unused : Allocator → ℕ) where
  map_stop :
      (s : Paging Allocator) (dir i fuel : ℕ)
      → first_unused s.allocator + 16384 ≤ i
      → first_unused s.allocator + 16384 < 2 ^ 32
      → identity_map kmalloc_ap first_unused (suc fuel) i dir s ≡ ok s
  unfolding identity_map
  map_stop s dir i fuel past low =
      let test : ltb i (u32 (first_unused s.allocator + 4 * 4096)) ≡ false = ground arith in
      rw (test, identity_map) refl

  map_step :
      (s : Paging Allocator) (dir i fuel : ℕ)
      → i < first_unused s.allocator + 16384
      → first_unused s.allocator + 16384 < 2 ^ 32
      → identity_map kmalloc_ap first_unused (suc fuel) i dir s ≡ (
          identity_map_page kmalloc_ap i dir s
          >>= identity_map kmalloc_ap first_unused fuel (u32 (i + 4096)) dir)
  unfolding identity_map
  map_step s dir i fuel more low =
      let test : ltb i (u32 (first_unused s.allocator + 4 * 4096)) ≡ true = ground arith in
      rw (test, identity_map) refl

  identity_map_from :
      (fuel : ℕ) (s : Paging Allocator) (dir table n : ℕ)
      → get_or (s.directory_at dir).tables 0 0 ≡ table
      → table ≢ 0
      → IsIdentity (s.table_at table) s.frames n
      → first_unused s.allocator + 16384 ≤ 2 ^ 22
      → n ≤ pages_below (first_unused s.allocator + 16384)
      → pages_below (first_unused s.allocator + 16384) ≤ n + fuel
      → (frames' : FrameAllocator) × (tables : ℕ → PageTable) × (identity_map kmalloc_ap
            first_unused
            (suc fuel)
            (n * 4096)
            dir
            s
          ≡ ok (record s { frames = frames'; table_at = tables }))
        × IsIdentity (tables table) frames' (pages_below (first_unused s.allocator + 16384))
        × ((t : ℕ) → t ≢ table → tables t ≡ s.table_at t)
  identity_map_from zero s dir table n entry ne v low begun enough =
      let last : pages_below (first_unused s.allocator + 16384) ≡ n = omega arith in
      (
        s.frames,
        s.table_at,
        map_stop s dir (n * 4096) 0 (omega arith) (omega arith),
        rw last v,
        λ t other. refl,
      )
  identity_map_from (suc fuel) s dir table n entry ne v low begun enough =
      let bound = first_unused s.allocator + 16384 in
      elim (dec_lt (n * 4096) bound) [
        | no past ↦
            let last : pages_below bound ≡ n = omega arith in
            (
              s.frames,
              s.table_at,
              map_stop s dir (n * 4096) (suc fuel) (omega arith) (omega arith),
              rw last v,
              λ t other. refl,
            )
        | yes more ↦
            let (frames', tables, mapped, w, others) =
              identity_map_page_lem kmalloc_ap s dir table n entry ne v (omega arith) in
            let next : Paging Allocator = record s { frames = frames'; table_at = tables } in
            let (frames'', tables'', run, last, others'') =
              identity_map_from fuel next dir table (suc n) entry ne w low (omega arith)
                (omega arith) in
            let at : u32 (n * 4096 + 4096) ≡ suc n * 4096 = omega arith in
            (
              frames'',
              tables'',
              map_step s dir (n * 4096) (suc fuel) more (omega arith) ∙ rw (mapped, at) run,
              last,
              λ t other. others'' t other ∙ others t other,
            )
      ]

-- No frame is in use yet, and there are frames for 4 MiB at least.
pub record IsUnused (frames : FrameAllocator) : Type 0 where
  pub valid : IsValid frames.frames
  pub few : frames.frames.size ≤ 2 ^ 15
  pub enough : 32 ≤ frames.frames.size
  pub free : (j : ℕ) → in_use frames j ≡ 0

IsUnused-IsIdentity : (frames : FrameAllocator) → IsUnused frames → IsIdentity zero_table frames 0
IsUnused-IsIdentity frames v = record {
  size = length-replicate 1024 zero_page;
  address = λ k h. absurd (omega arith);
  present = λ k h. absurd (omega arith);
  blank = λ k h. ap (λ (q : Page). q.address) (get_or-replicate 1024 k zero_page);
  valid = v.valid;
  few = v.few;
  enough = v.enough;
  used = λ j h. absurd (omega arith);
  free = λ j h. v.free j;
}

module _ {Allocator : Type 0} where
  translate_identity :
      (s : Paging Allocator) (dir table n address : ℕ)
      → get_or (s.directory_at dir).tables 0 0 ≡ table
      → table ≢ 0
      → IsIdentity (s.table_at table) s.frames n
      → n ≤ 1024
      → address < n * 4096
      → translate s dir address ≡ some (address / 4096)
  unfolding translate
  translate_identity s dir table n address entry ne v few low =
      let zero_index : address / 4096 / 1024 ≡ 0 = omega arith in
      let index : address / 4096 % 1024 ≡ address / 4096 = omega arith in
      let here = v.present (address / 4096) (omega arith) in
      let at = v.address (address / 4096) (omega arith) in
      let test : (table == 0) ≡ false = ground arith in
      rw (zero_index, index, entry, test, here, at) refl

module _ {Allocator : Type 0}
    (kmalloc_ap : ℕ → Paging Allocator → Result (ℕ × ℕ × Paging Allocator))
    (owned : Allocator → ℕ → Type 0) (room : Allocator → ℕ → Type 0)
    (laws : IsAllocator kmalloc_ap owned room) (first_unused : Allocator → ℕ) where
  -- The first round makes the table that the later ones find.
  first_round :
      (s t : Paging Allocator) (dir fresh physical fuel : ℕ)
      → get_or (s.directory_at dir).tables 0 0 ≡ 0
      → kmalloc_ap 4096 s ≡ ok (fresh, physical, t)
      → get_or ((extended kmalloc_ap owned room t dir 0 fresh physical).directory_at dir).tables 0 0
        ≡ fresh
      → fresh ≢ 0
      → first_unused s.allocator + 16384 < 2 ^ 32
      → first_unused t.allocator + 16384 < 2 ^ 32
      → identity_map kmalloc_ap first_unused (suc fuel) 0 dir s
        ≡ identity_map kmalloc_ap first_unused
            (suc fuel)
            0
            dir
            (extended kmalloc_ap owned room t dir 0 fresh physical)
  unfolding identity_map_page
  first_round s t dir fresh physical fuel missing allocated entry ne low low' =
      let s1 = extended kmalloc_ap owned room t dir 0 fresh physical in
      let made = get_page_new kmalloc_ap owned room s t dir 0 fresh physical missing allocated in
      let found = get_page_there kmalloc_ap s1 dir fresh 0 true entry ne (omega arith) in
      map_step kmalloc_ap first_unused s dir 0 fuel (omega arith) low
      ∙ ap (λ x. x >>= identity_map kmalloc_ap first_unused fuel 4096 dir) (rw (made, found) refl)
      ∙ sym (map_step kmalloc_ap first_unused s1 dir 0 fuel (omega arith) low')

  -- Before any frame is in use, with at least 1024 frames, room for a table, and a directory of 1024
  -- entries that has no table for the first 4 MiB: if the memory in use and 16 KiB more end
  -- within these 4 MiB, also once the allocator has made the table, then the second loop of
  -- init_paging finishes within 1025 rounds, no assertion of it fails, every address below that
  -- end stands for itself, just the frames up to it are in use, and the other entries of
  -- the directory are as before.
  pub identity_map_lem :
      (s : Paging Allocator) (dir fuel : ℕ)
      → room s.allocator 1
      → length (s.directory_at dir).tables ≡ 1024
      → get_or (s.directory_at dir).tables 0 0 ≡ 0
      → IsUnused s.frames
      → first_unused s.allocator + 16384 ≤ 2 ^ 22
      → ((fresh physical : ℕ) (t : Paging Allocator)
          → kmalloc_ap 4096 s ≡ ok (fresh, physical, t)
          → first_unused t.allocator + 16384 ≤ 2 ^ 22)
      → 1024 < fuel
      → (s' : Paging Allocator) × (identity_map kmalloc_ap first_unused fuel 0 dir s ≡ ok s')
        × ((address : ℕ)
            → address < first_unused s'.allocator + 16384
            → translate s' dir address ≡ some (address / 4096))
        × ((j : ℕ)
            → (j < pages_below (first_unused s'.allocator + 16384) → in_use s'.frames j ≡ 1)
              × (pages_below (first_unused s'.allocator + 16384) ≤ j → in_use s'.frames j ≡ 0))
        × ((i : ℕ)
            → i ≢ 0
            → get_or (s'.directory_at dir).tables i 0 ≡ get_or (s.directory_at dir).tables i 0)
  identity_map_lem s dir zero left size missing unused low low' enough = absurd (omega arith)
  identity_map_lem s dir (suc fuel) left size missing unused low low' enough =
      let (fresh, physical, t, allocated, g) =
        laws.gives 4096 0 s left (omega arith) (omega arith) in
      let nonzero = g.nonzero in
      let apart = g.apart in
      let s1 = extended kmalloc_ap owned room t dir 0 fresh physical in
      let table = with_table kmalloc_ap owned room (t.directory_at dir) 0 fresh physical in
      let stored : s1.directory_at dir ≡ table = (update_lem t.directory_at dir table dir).0 refl in
      let old : (t.directory_at dir).tables ≡ (s.directory_at dir).tables =
        ap (λ (u : Paging Allocator). (u.directory_at dir).tables) apart in
      let entry = λ (j : ℕ).
        get_or-set_if (t.directory_at dir).tables 0 j fresh (omega (arith, ap length old, size)) in
      let first : get_or (s1.directory_at dir).tables 0 0 ≡ fresh =
        ap (λ (d : PageDirectory). get_or d.tables 0 0) stored ∙ (entry 0).0 refl in
      let blank : s1.table_at fresh ≡ zero_table =
        (update_lem t.table_at fresh zero_table fresh).0 refl in
      let frames : t.frames ≡ s.frames = ap (λ (u : Paging Allocator). u.frames) apart in
      let begun : IsIdentity (s1.table_at fresh) s1.frames 0 =
        rw (blank, frames) (IsUnused-IsIdentity s.frames unused) in
      let bound = low' fresh physical t allocated in
      let (frames', tables, run, v, others) =
        identity_map_from kmalloc_ap first_unused fuel s1 dir fresh 0 first nonzero begun bound
          (omega arith) (omega arith) in
      let s' : Paging Allocator = record s1 { frames = frames'; table_at = tables } in
      (
        s',
        first_round s t dir fresh physical fuel missing allocated first nonzero (omega arith)
              (omega arith)
            ∙ run,
        (λ address below.
            translate_identity s' dir fresh (pages_below (first_unused t.allocator + 16384)) address
              first nonzero v (omega arith) (omega arith)),
        (λ j. (v.used j, v.free j)),
        λ i other.
            ap (λ (d : PageDirectory). get_or d.tables i 0) stored
            ∙ (entry i).1 other
            ∙ ap (λ l. get_or l i 0) old,
      )
