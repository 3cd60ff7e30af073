-- ===== src/Startup/Laws.antt =====
-- What is in place when the kernel enables interrupts, and what a tick does then.
use evos.Base.{
  ℕ, ◌+◌, ◌<◌, ◌≡◌, ◌≢◌, refl, sym, ◌∙◌, inl, inr, true, false, List, [], ◌∷◌, ◌++◌, none, some,
  Result, ok, fault, arith, length, get_elem?, get_elem?_past, minus_one, u32, set, dec_lt,
  get_elem?_of_lt,
}
use evos.Monitor.{Monitor}
use evos.Monitor.Laws.{IsValid}
use evos.Printk.Plain.{is_plain, is_plain-IsPlain, printk_plain}
use evos.Gdt.{gdt_entries, tss_contents}
use evos.Idt.{call, register_handler, init_idt, remap_pic, isr_common_handler}
use evos.Timer.Laws.{report_success-IsValid, get_elem?-set, get_elem?-set_ne, init_timer_lem}
use evos.Paging.{Paging}
use evos.Task.{Tasks, task_switch}
use evos.Task.Table.{is_alive, find_next_task_lem}
use evos.Startup.{
  Symbols, Machine, loading_gdt, loading_idt, remapping, announce, init_gdt, load_idt, start_timer,
  init_syscalls, set_up, timer_callback,
}

announce-IsValid :
    (text : List ℕ) (m : Monitor)
    → IsValid m
    → is_plain text ≡ true
    → length text < 4096
    → (next : Monitor) × (announce text m ≡ ok next) × IsValid next
unfolding announce
announce-IsValid text m v plain short =
    let (shown, printed, wrote, valid) =
      printk_plain text [] m v (is_plain-IsPlain text plain) short in
    let (next, reported, last) = report_success-IsValid shown valid in
    (next, rw (printed, reported) refl, last)

get_elem?-inside {ℓ} :
    {A : Type ℓ} (xs ys : List A) (i : ℕ)
    → get_elem? xs i ≡ get_elem? ys i
    → i < length ys
    → i < length xs
get_elem?-inside xs ys i same inside = elim (dec_lt i (length xs)) [
  | yes h ↦ h
  | no past ↦
      let gone = get_elem?_past xs i (omega arith) in
      let (y, here) = get_elem?_of_lt ys i inside in
      let both : none ≡ some y = sym gone ∙ same ∙ here in cc
]

-- With the cursor on the screen and an array of 256 handlers, __kmain gets to the point where it
-- enables interrupts. By then the two tables are those of init_gdt and init_idt; the ports have
-- got, after what they had, the bytes that remap the interrupt controllers and those that set the
-- timer to 50 Hz; a system call is handed to syscall_handler; the handler of a tick
-- is timer_callback; and every other handler is as before.
pub set_up_lem :
    (symbols : Symbols) (k : Machine)
    → IsValid k.screen
    → length k.handlers ≡ 256
    → (k' : Machine) × (set_up symbols k ≡ ok k')
      × IsValid k'.screen
      × (k'.gdt ≡ gdt_entries true symbols.tss)
      × (k'.tss ≡ tss_contents symbols.kernel_relocated_stack)
      × (k'.idt ≡ init_idt symbols.isr symbols.irq symbols.isr_0x80)
      × (k'.ports ≡ (k.ports ++ remap_pic) ++ (0x43, 0x36) ∷ (0x40, 55) ∷ (0x40, 93) ∷ [])
      × (isr_common_handler k'.handlers 0x80 ≡ ok (call symbols.syscall_handler 0x80 ∷ []))
      × (get_elem? k'.handlers 32 ≡ some (some symbols.timer_callback))
      × ((j : ℕ) → j ≢ 32 → j ≢ 0x80 → get_elem? k'.handlers j ≡ get_elem? k.handlers j)
unfolding set_up init_gdt load_idt start_timer init_syscalls register_handler is_plain
    isr_common_handler
set_up_lem symbols k v size =
    let (s1, r1, v1) = announce-IsValid loading_gdt k.screen v refl (omega arith) in
    let (s2, r2, v2) = announce-IsValid loading_idt s1 v1 refl (omega arith) in
    let (s3, r3, v3) = announce-IsValid remapping s2 v2 refl (omega arith) in
    let timer = (init_timer_lem symbols.timer_callback 50 k.handlers s3 v3 size).1 (omega arith) in
    let (low, high, h, s4, run, small, small', divisor, at, others, v4) = timer in
    let lower : low ≡ 55 = omega arith in
    let upper : high ≡ 93 = omega arith in
    let h' = set h 0x80 (some symbols.syscall_handler) in
    let there = others 0x80 (omega arith) in
    let inside = get_elem?-inside h k.handlers 0x80 there (omega (arith, size)) in
    let called = get_elem?-set h 0x80 (some symbols.syscall_handler) inside in
    let ticks : get_elem? h' 32 ≡ some (some symbols.timer_callback) =
      get_elem?-set_ne h 0x80 32 (some symbols.syscall_handler) (omega arith) ∙ at in
    (
      record {
        screen = s4;
        gdt = gdt_entries true symbols.tss;
        tss = tss_contents symbols.kernel_relocated_stack;
        idt = init_idt symbols.isr symbols.irq symbols.isr_0x80;
        handlers = h';
        ports = (k.ports ++ remap_pic) ++ (0x43, 0x36) ∷ (0x40, low) ∷ (0x40, high) ∷ [];
      },
      rw (r1, r2, r3, run) refl,
      v4,
      refl,
      refl,
      refl,
      rw (lower, upper) refl,
      rw called refl,
      ticks,
      λ j ne ne'.
          get_elem?-set_ne h 0x80 j (some symbols.syscall_handler) (λ e. ne' (sym e)) ∙ others j ne,
    )

module _ {Allocator : Type 0}
    (kmalloc_ap : ℕ → Paging Allocator → Result (ℕ × ℕ × Paging Allocator)) where
  -- A tick while there is no task, with the slot behind the current one in the table of 256: the
  -- search gives -1, and task_switch reads the table at this index.
  pub timer_callback_no_task :
      (t : Tasks) (s : Paging Allocator)
      → length t.tasks ≡ 256
      → u32 (t.current_task + 1) < 256
      → ((j : ℕ) → j < 256 → is_alive t.tasks j ≡ false)
      → timer_callback kmalloc_ap (t, s) ≡ fault
  unfolding timer_callback task_switch
  timer_callback_no_task t s size small dead = elim (find_next_task_lem t size) [
    | inl (past, e) ↦ absurd (omega arith)
    | inr (inl (all, e)) ↦ rw (e, get_elem?_past t.tasks minus_one (omega arith)) refl
    | inr (inr (pid, e, (d, near, here, alive, before))) ↦ let gone = dead pid (omega arith) in cc
  ]
