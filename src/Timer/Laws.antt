-- ===== src/Timer/Laws.antt =====
-- What the timer is set to.
use evos.Base.{
  ℕ, zero, suc, ◌+◌, ◌*◌, ◌/◌, ◌%◌, ◌^◌, ◌<◌, ◌≡◌, ◌≢◌, refl, sym, ap, inl, inr, true, false, List,
  [], ◌∷◌, some, ok, fault, arith, leb, ◌==◌, Bool-cases, min, length, get_elem?, set,
}
use evos.Monitor.{Monitor}
use evos.Monitor.Laws.{IsValid, write_status-IsValid}
use evos.Printk.{report_success}
use evos.Printk.Plain.{printk_plain, is_plain, is_plain-IsPlain}
use evos.Idt.{Handlers, register_handler}
use evos.Timer.{too_low, initialising, limit_divisor, init_timer}

pub report_success-IsValid :
    (m : Monitor) → IsValid m → (next : Monitor) × (report_success m ≡ ok next) × IsValid next
unfolding report_success
report_success-IsValid m v = write_status-IsValid m (68 ∷ 79 ∷ 78 ∷ 69 ∷ []) true v (omega arith)

pub get_elem?-set {ℓ} :
    {A : Type ℓ} (xs : List A) (i : ℕ) (v : A) → i < length xs → get_elem? (set xs i v) i ≡ some v
get_elem?-set [] i v h = absurd (omega arith)
get_elem?-set (x ∷ xs) zero v h = refl
get_elem?-set (x ∷ xs) (suc i) v h = get_elem?-set xs i v (omega arith)

pub get_elem?-set_ne {ℓ} :
    {A : Type ℓ} (xs : List A) (i j : ℕ) (v : A) → i ≢ j → get_elem? (set xs i v) j ≡ get_elem? xs j
get_elem?-set_ne [] i j v ne = refl
get_elem?-set_ne (x ∷ xs) zero zero v ne = absurd (ne refl)
get_elem?-set_ne (x ∷ xs) zero (suc j) v ne = refl
get_elem?-set_ne (x ∷ xs) (suc i) zero v ne = refl
get_elem?-set_ne (x ∷ xs) (suc i) (suc j) v ne = get_elem?-set_ne xs i j v (λ e. ne (ap suc e))

limit_divisor_lem :
    (divisor : ℕ) (m : Monitor)
    → IsValid m
    → (next : Monitor) × (limit_divisor divisor m ≡ ok (min divisor 0xFFFF, next)) × IsValid next
unfolding limit_divisor is_plain
limit_divisor_lem divisor m v = elim (Bool-cases (leb (2 ^ 16) divisor)) [
  | inl large ↦
      let (next, printed, wrote, valid) =
        printk_plain too_low [] m v (is_plain-IsPlain too_low refl) (omega arith) in
      let smallest : min divisor 0xFFFF ≡ 0xFFFF = ground arith in
      (next, rw (large, printed, smallest) refl, valid)
  | inr small ↦
      let smallest : min divisor 0xFFFF ≡ divisor = ground arith in
      (m, rw (small, smallest) refl, v)
]

-- For a frequency other than 0, with the cursor on the screen and an array of 256
-- handlers: init_timer sends the mode 0x36 to port 0x43, and then to port 0x40 the low and the
-- high byte of 1193180 divided by the frequency, or of 65535 when that is less; it registers
-- the handler for interrupt 32 and for no other, and leaves the cursor on the screen. For the frequency 0 the
-- division faults.
pub init_timer_lem :
    (callback freq : ℕ) (handlers : Handlers) (m : Monitor)
    → IsValid m
    → length handlers ≡ 256
    → (freq ≡ 0 → init_timer callback freq (handlers, m) ≡ fault)
      × (freq ≢ 0
          → (low high : ℕ) × (handlers' : Handlers) × (next : Monitor) × (init_timer callback freq
                (handlers, m)
              ≡ ok ((0x43, 0x36) ∷ (0x40, low) ∷ (0x40, high) ∷ [], handlers', next))
            × (low < 256)
            × (high < 256)
            × (low + 256 * high ≡ min (1193180 / freq) 65535)
            × (get_elem? handlers' 32 ≡ some (some callback))
            × ((j : ℕ) → j ≢ 32 → get_elem? handlers' j ≡ get_elem? handlers j)
            × IsValid next)
unfolding init_timer register_handler is_plain
init_timer_lem callback freq handlers m v size = (
  (λ z. ground arith),
  λ ne.
      let limited = limit_divisor_lem (1193180 / freq) m v in
      let started =
        printk_plain initialising [] limited.0 limited.2 (is_plain-IsPlain initialising refl)
          (omega arith) in
      let reported = report_success-IsValid started.0 started.3 in
      let divisor = min (1193180 / freq) 65535 in
      let some_freq : (freq == 0) ≡ false = ground arith in
      (
        divisor % 256,
        divisor / 256 % 256,
        set handlers 32 (some callback),
        reported.0,
        rw (some_freq, limited.1, started.1, reported.1) refl,
        omega arith,
        omega arith,
        omega arith,
        get_elem?-set handlers 32 (some callback) (omega arith),
        (λ j other. get_elem?-set_ne handlers 32 j (some callback) (λ e. other (sym e))),
        reported.2,
      ),
)
