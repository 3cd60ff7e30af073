-- ===== src/Idt/Examples.antt =====
-- The tables and the handlers at concrete inputs.

use evos.Base.{ℕ, ◌+◌, ◌≡◌, refl, true, false, none, some, [], ◌∷◌, ok, fault, set, replicate}
use evos.Idt.{
  Handlers, interrupt_name, call, received, outb, call_if_set, isr_common_handler,
  irq_common_handler,
}

abbrev isr : ℕ → ℕ
isr n = 0x100000 + n

abbrev irq : ℕ → ℕ
irq n = 0x101000 + n

-- The page fault handler is registered.
abbrev handlers : Handlers
handlers = set (replicate 256 none) 14 (some 0x100200)

debug_exception : isr_common_handler handlers 1 ≡ ok (received 1 "Single-step/debug exception" ∷ [])
unfolding isr_common_handler interrupt_name
debug_exception = refl

-- The page fault handler is called, and for number 20 the array of names is read past its end.
page_fault : isr_common_handler handlers 14 ≡ ok (call 0x100200 14 ∷ [])
unfolding isr_common_handler interrupt_name
page_fault = refl

past_the_names : isr_common_handler handlers 20 ≡ fault
unfolding isr_common_handler interrupt_name
past_the_names = refl

-- A request without a handler is acknowledged at both controllers, and a tick whose handler
-- switches the task is not.
unhandled_request :
    irq_common_handler (λ address n. ([], true)) handlers 44
    ≡ ok (outb 0xA0 0x20 ∷ outb 0x20 0x20 ∷ [])
unfolding irq_common_handler call_if_set
unhandled_request = refl

switching_tick :
    irq_common_handler (λ address n. ([], false)) (set handlers 32 (some 0x104000)) 32
    ≡ ok (call 0x104000 32 ∷ [])
unfolding irq_common_handler call_if_set
switching_tick = refl
