-- ===== src/Base/Outcome.antt =====
-- The outcome of code that may panic or leave an object.
use mathlib.Core.Path.{◌≡◌, refl}
use mathlib.Core.Bool.{Bool, true, false}
use mathlib.Core.Option.{Option, none, some}

-- `panic` never returns: the machine halts. `fault` is an access outside an object.
pub data Result {ℓ} (A : Type ℓ) : Type ℓ where
  panic : Result A
  fault : Result A
  ok : A → Result A

-- An index outside an object.
abbrev pub checked {ℓ} : {A : Type ℓ} → Option A → Result A
checked none = fault
checked (some found) = ok found

-- `assert(condition, message)` of assert.h: it panics where the condition is false.
abbrev pub assert : Bool → Result (Unit {0})
assert false = panic
assert true = ok tt

pub assert-true : (b : Bool) {u : Unit {0}} → assert b ≡ ok u → b ≡ true
assert-true false h = cc
assert-true true h = refl

-- The statements behind one that panics or faults are not reached.
module _ {ℓ κ} {A : Type ℓ} {B : Type κ} where
  infixl 5 ◌>>=◌
  abbrev pub ◌>>=◌ : Result A → (A → Result B) → Result B
  panic >>= next = panic
  fault >>= next = fault
  ok result >>= next = next result

  -- A sequence that succeeds has a first part that does.
  pub first_part :
      (m : Result A) (next : A → Result B) {b : B}
      → (m >>= next) ≡ ok b
      → (result : A) × (m ≡ ok result) × (next result ≡ ok b)
  first_part panic next e = cc
  first_part fault next e = cc
  first_part (ok result) next e = (result, refl, e)

  -- Only what the second part returns matters.
  pub second_part :
      (m : Result A) (next other : A → Result B)
      → ((result : A) → next result ≡ other result)
      → (m >>= next) ≡ (m >>= other)
  second_part panic next other same = refl
  second_part fault next other same = refl
  second_part (ok result) next other same = same result

infixl 5 ◌>>◌
abbrev pub ◌>>◌ {ℓ} : {B : Type ℓ} → Result (Unit {0}) → Result B → Result B
check >> next = check >>= (λ done. next)

pub ok_injective {ℓ} : {A : Type ℓ} {a b : A} → ok a ≡ ok b → a ≡ b
ok_injective e = cc
