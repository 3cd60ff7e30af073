-- ===== src/Idt/Laws.antt =====
-- What the tables hold, and what the common handlers do.
use Prim.Native.String.{String}
use evos.Base.{
  ℕ, zero, suc, ◌+◌, ◌-◌, ◌*◌, ◌^◌, ◌≤◌, ◌<◌, ◌≡◌, ◌≢◌, refl, ap, ◌∙◌, ◌⊎◌, inl, true, false,
  Option, none, some, List, [], ◌∷◌, ◌++◌, ok, panic, fault, arith, ltb, ◌==◌, if◌then◌else◌,
  length, get_elem?, get_elem?_of_lt, get_elem?_past, get_or, set, length-set, get_or-set_self,
  get_or-set_ne, length-replicate, get_or-replicate, replicate,
}
use evos.Idt.{
  IdtFlags, IdtEntry, cleared, handler_entry, gate_flags, set_handlers, init_idt, Handlers,
  interrupt_name, name_or_default, call, received, isr_common_handler, Run, end_of_interrupt,
  call_if_set, irq_common_handler,
}

-- The processor's reading of the handler's address.
abbrev pub handler_address : IdtEntry → ℕ
handler_address e = e.handler_addr_lower + 2 ^ 16 * e.handler_addr_upper

handler_address_lem :
    (address segment : ℕ) (flags : IdtFlags)
    → address < 2 ^ 32
    → handler_address (handler_entry address segment flags) ≡ address
unfolding handler_entry
handler_address_lem address segment flags h = omega arith

abbrev pub entry_at : List IdtEntry → ℕ → IdtEntry
entry_at table i = get_or table i cleared

length-set_handlers :
    (handler : ℕ → ℕ) (count first number : ℕ) (table : List IdtEntry)
    → length (set_handlers handler count first number table) ≡ length table
unfolding set_handlers
length-set_handlers handler zero first number table = refl
length-set_handlers handler (suc count) first number table =
    length-set_handlers handler count (suc first) (suc number)
      (set table first (handler_entry (handler number) 0x08 (gate_flags 0)))
    ∙ length-set table first (handler_entry (handler number) 0x08 (gate_flags 0))

-- The macro lines fill a range of the table, and leave the rest.
set_handlers_outside :
    (handler : ℕ → ℕ) (count first number i : ℕ) (table : List IdtEntry)
    → (i < first) ⊎ (first + count ≤ i)
    → entry_at (set_handlers handler count first number table) i ≡ entry_at table i
unfolding set_handlers
set_handlers_outside handler zero first number i table h = refl
set_handlers_outside handler (suc count) first number i table h =
    set_handlers_outside handler count (suc first) (suc number) i
      (set table first (handler_entry (handler number) 0x08 (gate_flags 0))) (omega arith)
    ∙ get_or-set_ne table first i (handler_entry (handler number) 0x08 (gate_flags 0)) cleared
        (omega arith)

set_handlers_inside :
    (handler : ℕ → ℕ) (count first number k i n : ℕ) (table : List IdtEntry)
    → k < count
    → i ≡ first + k
    → n ≡ number + k
    → first + count ≤ length table
    → entry_at (set_handlers handler count first number table) i
      ≡ handler_entry (handler n) 0x08 (gate_flags 0)
unfolding set_handlers
set_handlers_inside handler zero first number k i n table h e f room = absurd (omega arith)
set_handlers_inside handler (suc count) first number zero i n table h e f room =
    let here : i ≡ first = omega arith in
    let same : n ≡ number = omega arith in
    let entry = handler_entry (handler number) 0x08 (gate_flags 0) in
    rw (here, same)
      (set_handlers_outside handler count (suc first) (suc number) first (set table first entry)
          (inl (omega arith))
        ∙ get_or-set_self table first entry cleared (omega arith))
set_handlers_inside handler (suc count) first number (suc k) i n table h e f room =
    let entry = handler_entry (handler number) 0x08 (gate_flags 0) in
    set_handlers_inside handler count (suc first) (suc number) k i n (set table first entry)
      (omega arith) (omega arith) (omega arith) (omega (arith, length-set {0} table first entry))

-- What entry `i` of the finished table is.
abbrev pub expected_entry : (ℕ → ℕ) → (ℕ → ℕ) → ℕ → ℕ → IdtEntry
expected_entry isr irq isr_0x80 i =
    if ltb i 32
    then handler_entry (isr i) 0x08 (gate_flags 0)
    else if ltb i 48
    then handler_entry (irq (i - 32)) 0x08 (gate_flags 0)
    else if i == 0x80
    then handler_entry isr_0x80 0x08 (gate_flags 3)
    else cleared

module _ (isr irq : ℕ → ℕ) (isr_0x80 : ℕ) where
  -- The three steps of `init_idt` on any table of 256 entries.
  filled :
      (table : List IdtEntry) (i : ℕ)
      → length table ≡ 256
      → entry_at table i ≡ cleared
      → entry_at
          (set_handlers irq 16 32 0
            (set (set_handlers isr 32 0 0 table) 0x80 (handler_entry isr_0x80 0x08 (gate_flags 3))))
          i
        ≡ expected_entry isr irq isr_0x80 i
  filled table i size blank = ground (
    arith,
    set_handlers_outside irq 16 32 0 i after_syscall,
    set_handlers_inside irq 16 32 0 (i - 32) i (i - 32) after_syscall,
    get_or-set_ne after_isrs 0x80 i syscall_entry cleared,
    get_or-set_self after_isrs 0x80 syscall_entry cleared,
    ap (entry_at (set after_isrs 0x80 syscall_entry)) {x = i} {y = 0x80},
    set_handlers_outside isr 32 0 0 i table,
    set_handlers_inside isr 32 0 0 i i i table,
    length-set_handlers isr 32 0 0 table,
    length-set {0} after_isrs 0x80 syscall_entry,
  )
    where
      syscall_entry : IdtEntry
      syscall_entry = handler_entry isr_0x80 0x08 (gate_flags 3)

      after_isrs : List IdtEntry
      after_isrs = set_handlers isr 32 0 0 table

      after_syscall : List IdtEntry
      after_syscall = set after_isrs 0x80 syscall_entry

  -- Entries 0 to 31 of the table that `init_idt` leaves are the exception stubs, 32 to 47 those of
  -- the two PICs, all for ring 0; entry 0x80 is the system call stub, for ring 3; the others are
  -- cleared.
  pub init_idt_lem :
      (i : ℕ) → entry_at (init_idt isr irq isr_0x80) i ≡ expected_entry isr irq isr_0x80 i
  unfolding init_idt
  init_idt_lem i =
      filled (replicate 256 cleared) i (length-replicate 256 cleared)
        (get_or-replicate 256 i cleared)

-- Every number below 20 has an entry in the array of names, and no other has.
name_below : (n : ℕ) → n < 20 → (name : Option String) × (get_elem? interrupt_name n ≡ some name)
unfolding interrupt_name
name_below n h = get_elem?_of_lt interrupt_name n h

name_past : (n : ℕ) → 20 ≤ n → get_elem? interrupt_name n ≡ none
unfolding interrupt_name
name_past n h = get_elem?_past interrupt_name n h

received_lem :
    (handlers : Handlers) (n : ℕ) (name : Option String)
    → get_elem? handlers n ≡ some none
    → get_elem? interrupt_name n ≡ some name
    → (n ≡ 13 → isr_common_handler handlers n ≡ panic)
      × (n ≢ 13 → isr_common_handler handlers n ≡ ok (received n (name_or_default name) ∷ []))
unfolding isr_common_handler
received_lem handlers n name e named = (λ at. rw (e, named, at), λ ne. rw (e, named) (ground arith))

-- The common interrupt handler calls the registered handler, if there is one; if there is none it
-- names the interrupt, but only for numbers below 20: from 20 on it reads past the end of the array
-- of names. After interrupt 13 it panics.
isr_common_handler_lem :
    (handlers : Handlers) (n : ℕ) (handler : Option ℕ)
    → get_elem? handlers n ≡ some handler
    → (n ≡ 13 → isr_common_handler handlers n ≡ panic)
      × ((address : ℕ)
          → handler ≡ some address
          → n ≢ 13
          → isr_common_handler handlers n ≡ ok (call address n ∷ []))
      × (handler ≡ none
          → n < 20
          → n ≢ 13
          → (name : String) × (isr_common_handler handlers n ≡ ok (received n name ∷ [])))
      × (handler ≡ none → 20 ≤ n → isr_common_handler handlers n ≡ fault)
unfolding isr_common_handler
isr_common_handler_lem handlers n (some address) e =
    (λ at. rw (e, at), λ a h ne. ground arith, λ h lt ne. cc, λ h ge. cc)
isr_common_handler_lem handlers n none e = (
  λ at. let named = name_below n (omega arith) in (received_lem handlers n named.0 e named.1).0 at,
  λ a h ne. absurd (ground arith),
  λ h lt ne.
      let named = name_below n lt in
      (name_or_default named.0, (received_lem handlers n named.0 e named.1).1 ne),
  λ h ge. rw (e, name_past n ge),
)

-- A request whose handler returns, or that has none, is acknowledged behind what the handler does, at the
-- slave from number 40 on and always at the master; one whose handler does not return is not
-- acknowledged here.
irq_common_handler_lem :
    (run : Run) (handlers : Handlers) (n : ℕ) (handler : Option ℕ)
    → get_elem? handlers n ≡ some handler
    → (handler ≡ none → irq_common_handler run handlers n ≡ ok (end_of_interrupt n))
      × ((address : ℕ)
          → handler ≡ some address
          → (run address n).1 ≡ true
          → irq_common_handler run handlers n
            ≡ ok ((call address n ∷ (run address n).0) ++ end_of_interrupt n))
      × ((address : ℕ)
          → handler ≡ some address
          → (run address n).1 ≡ false
          → irq_common_handler run handlers n ≡ ok ((call address n ∷ (run address n).0) ++ []))
unfolding irq_common_handler call_if_set
irq_common_handler_lem run handlers n handler e = (
  λ unset. rw (e, unset) refl,
  (λ address set_to returns. rw (e, set_to, returns) refl),
  λ address set_to leaves. rw (e, set_to, leaves) refl,
)
