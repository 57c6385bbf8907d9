-- ===== src/Prelude/Outcome.antt =====
-- What a run of kernel code comes to: a result, a call of `panic`, or a fault, which is behaviour
-- that C leaves undefined, such as a read outside an array or through a null pointer.
use mathlib.Core.Path.{◌≡◌, refl}
use mathlib.Core.Bool.{Bool, true, false}
use mathlib.Core.Option.{Option, none, some}

pub data Outcome {ℓ} (A : Type ℓ) : Type ℓ where
  ok : A → Outcome A
  panic : Outcome A
  fault : Outcome A

infixl 5 ◌>>=◌ ◌>>◌
abbrev pub ◌>>=◌ {ℓ κ} : {A : Type ℓ} {B : Type κ} → Outcome A → (A → Outcome B) → Outcome B
ok a >>= f = f a
panic >>= f = panic
fault >>= f = fault

abbrev pub ◌>>◌ {ℓ} : {B : Type ℓ} → Outcome (Unit {0}) → Outcome B → Outcome B
m >> k = m >>= λ _. k

-- A value that must be there: the read of an array cell, or through a pointer.
abbrev pub deref {ℓ} : {A : Type ℓ} → Option A → Outcome A
deref none = fault
deref (some a) = ok a

-- `if(b) panic(...)`
abbrev pub panic_if : Bool → Outcome (Unit {0})
panic_if true = panic
panic_if false = ok tt

-- Inversion of a successful bind, for proofs where the parts stay shut.
pub >>=-ok {ℓ κ} :
    {A : Type ℓ} {B : Type κ} (m : Outcome A) (f : A → Outcome B) {b : B}
    → (m >>= f) ≡ ok b
    → (a : A) × (m ≡ ok a) × (f a ≡ ok b)
>>=-ok (ok a) f h = (a, refl, h)
>>=-ok panic f h = cc
>>=-ok fault f h = cc
