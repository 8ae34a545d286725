-- ===== src/Common/Results.antt =====
-- What a call of the program comes to: a value, a failed `assert`, a wait that nothing ends, undefined
-- behaviour such as an access outside an object's lifetime, an `Exception("out of memory")`, or another
-- `Exception`. In the model a loop may also run out of fuel.
use mathlib.Core.Path.{◌≡◌, refl, sym, ap, ◌∙◌}

pub data Outcome {ℓ} (A : Type ℓ) : Type ℓ where
  ok : A → Outcome A
  assert_failed : Outcome A
  deadlock : Outcome A
  undefined : Outcome A
  out_of_memory : Outcome A
  exception : Outcome A
  out_of_fuel : Outcome A

infixl 5 ◌>>=◌ ◌>>◌
abbrev pub ◌>>=◌ {ℓ κ} : {A : Type ℓ} {B : Type κ} → Outcome A → (A → Outcome B) → Outcome B
ok a >>= f = f a
assert_failed >>= f = assert_failed
deadlock >>= f = deadlock
undefined >>= f = undefined
out_of_memory >>= f = out_of_memory
exception >>= f = exception
out_of_fuel >>= f = out_of_fuel

abbrev pub ◌>>◌ {ℓ} : {B : Type ℓ} → Outcome (Unit {0}) → Outcome B → Outcome B
m >> k = m >>= λ _. k

-- A call that answers has one answer.
pub ok-injective {ℓ} : {A : Type ℓ} {o : Outcome A} (x y : A) → o ≡ ok x → o ≡ ok y → x ≡ y
ok-injective x y h k = ap (elim [ ok a ↦ a | _ ↦ x ]) (sym h ∙ k)

-- A chain of calls that answers has answers of both.
pub bind_ok {ℓ κ} :
    {A : Type ℓ} {B : Type κ} (m : Outcome A) (f : A → Outcome B) (b : B)
    → m >>= f ≡ ok b
    → (a : A) × (m ≡ ok a) × (f a ≡ ok b)
bind_ok (ok a) f b h = (a, refl, h)
bind_ok assert_failed f b h = cc
bind_ok deadlock f b h = cc
bind_ok undefined f b h = cc
bind_ok out_of_memory f b h = cc
bind_ok exception f b h = cc
bind_ok out_of_fuel f b h = cc
