-- ===== src/Types/Results.antt =====
-- The answers of the arithmetic functions of src/type/{tinyint,smallint,integer,bigint}_type.cpp.
use lab.Common.{
  ℕ, zero, suc, negsuc, sub_ℕ, ◌%◌, ◌≡◌, refl, ap, ◌<◌, false, ◌⊎◌, is_negative, if◌then◌else◌, ℤ,
  pos, ◌==ℤ◌, ◌+ℤ◌, ◌-ℤ◌, ◌*ℤ◌, ◌/ℤ◌, ◌%ℤ◌, abs_ℤ, arith, Bool-cases, inl, inr,
}
use lab.Types.Value.{
  IntType, fits, null_of, Value, value, null_value, IsValue, either_null, is_zero, Error, Answer,
  returned, thrown, overflowed, divide_by_zero,
}
use lab.Types.Arithmetic.{promoted}
use lab.Types.Narrow.{wider, narrow-fits}
use lab.Types.Exact.{exact, add_value-exact, subtract_value-exact, multiply_value-exact}
use lab.Types.Divide.{
  IsValue-Inside, Inside-wider, quotient-Inside, remainder-Inside, remainder_less, recompose,
  value-Inside, divide_value-quotient, modulo_value-remainder,
}
use lab.Types.Dispatch.{add, subtract, multiply, divide, modulo}
use lab.Types.Switch.{
  add_template, subtract_template, multiply_template, divide_template, modulo_template,
}

-- The answer for operands that are not null, or the null of the wider type.
unfoldable pub unless_null : Value → Value → Answer Value → Answer Value
unless_null left right answer =
    if either_null left right
    then returned (null_value (wider left.type_id right.type_id))
    else answer

pub add-exact :
    (left right : Value)
    → add left right
      ≡ unless_null left right (exact left.type_id right.type_id (left.number +ℤ right.number))
unfolding unless_null
add-exact left right = rw (add_template left right, add_value-exact left right) refl

pub subtract-exact :
    (left right : Value)
    → subtract left right
      ≡ unless_null left right (exact left.type_id right.type_id (left.number -ℤ right.number))
unfolding unless_null
subtract-exact left right = rw (subtract_template left right, subtract_value-exact left right) refl

pub multiply-exact :
    (left right : Value)
    → multiply left right
      ≡ unless_null left right (exact left.type_id right.type_id (left.number *ℤ right.number))
unfolding unless_null
multiply-exact left right = rw (multiply_template left right, multiply_value-exact left right) refl

-- A value of type t, if there is one.
unfoldable pub Typed : IntType → Answer Value → Type 0
Typed t (returned v) = IsValue v × (v.type_id ≡ t)
Typed t (thrown e) = Unit
Typed t overflowed = Unit

value-Typed : (t : IntType) (z : ℤ) → Typed t (returned (value t z))
unfolding Typed IsValue value
value-Typed t z = ((narrow-fits t z, refl), refl)

exact-Typed : (t1 t2 : IntType) (z : ℤ) → Typed (wider t1 t2) (exact t1 t2 z)
unfolding exact Typed
exact-Typed t1 t2 z = elim (Bool-cases (fits (wider t1 t2) z)) [
  | inl h ↦ rw h (value-Typed (wider t1 t2) z)
  | inr h ↦ elim (Bool-cases (fits (promoted t1 t2) z)) [
    | inl k ↦ rw (h, k) tt
    | inr k ↦ rw (h, k) tt
  ]
]

unless_null-Typed :
    (left right : Value) (answer : Answer Value)
    → Typed (wider left.type_id right.type_id) answer
    → Typed (wider left.type_id right.type_id) (unless_null left right answer)
unfolding unless_null null_value
unless_null-Typed left right answer h = elim (Bool-cases (either_null left right)) [
  | inl e ↦
      rw e (
        value-Typed (wider left.type_id right.type_id) (null_of (wider left.type_id right.type_id)))
  | inr e ↦ rw e h
]

thrown-Typed : (t : IntType) (e : Error) → Typed t (thrown e)
unfolding Typed
thrown-Typed t e = tt

left_present : (left right : Value) → either_null left right ≡ false → left.is_null ≡ false
unfolding either_null
left_present left right h = ground arith

nonzero-Typed :
    (right : Value) (t : IntType) (z : ℤ)
    → Typed t (if is_zero right then thrown divide_by_zero else returned (value t z))
nonzero-Typed right t z = elim (Bool-cases (is_zero right)) [
  | inl h ↦ rw h (thrown-Typed t divide_by_zero)
  | inr h ↦ rw h (value-Typed t z)
]

divide-answer :
    (left right : Value)
    → IsValue left
    → divide left right
      ≡ unless_null left right (
          if is_zero right
          then thrown divide_by_zero
          else returned (value (wider left.type_id right.type_id) (left.number /ℤ right.number)))
unfolding unless_null is_zero
divide-answer left right h = elim (Bool-cases (either_null left right)) [
  | inl e ↦ rw (divide_template left right, e) refl
  | inr e ↦ elim (Bool-cases (right.number ==ℤ pos 0)) [
    | inl z ↦ rw (divide_template left right, e, z) refl
    | inr z ↦
        rw (divide_template left right, e, z)
          (divide_value-quotient left right (IsValue-Inside left h (left_present left right e)) z)
  ]
]

modulo-answer :
    (left right : Value)
    → IsValue left
    → modulo left right
      ≡ unless_null left right (
          if is_zero right
          then thrown divide_by_zero
          else returned (value (wider left.type_id right.type_id) (left.number %ℤ right.number)))
unfolding unless_null is_zero
modulo-answer left right h = elim (Bool-cases (either_null left right)) [
  | inl e ↦ rw (modulo_template left right, e) refl
  | inr e ↦ elim (Bool-cases (right.number ==ℤ pos 0)) [
    | inl z ↦ rw (modulo_template left right, e, z) refl
    | inr z ↦
        rw (modulo_template left right, e, z)
          (modulo_value-remainder left right (IsValue-Inside left h (left_present left right e)) z)
  ]
]

-- The sign that `◌%ℤ◌` gives to the remainder r of the magnitudes.
with_sign :
    (x : ℤ) (r : ℕ)
    → ((if is_negative x then sub_ℕ 0 r else sub_ℕ r 0) ≡ pos 0)
      ⊎ (is_negative (if is_negative x then sub_ℕ 0 r else sub_ℕ r 0) ≡ is_negative x)
with_sign (pos n) r = inr (ground arith)
with_sign (negsuc n) zero = inl refl
with_sign (negsuc n) (suc r) = inr (ground arith)

remainder-sign : (x y : ℤ) → (x %ℤ y ≡ pos 0) ⊎ (is_negative (x %ℤ y) ≡ is_negative x)
unfolding ◌%ℤ◌
remainder-sign x y = with_sign x (abs_ℤ x % abs_ℤ y)

-- A value of a type whose number is q, and which is not the null.
abbrev pub present : IntType → ℤ → Value
present t q = record { type_id = t; number = q; is_null = false }

-- Divide and Modulo of two well-formed values that are not null, by one that is not zero, answer a
-- quotient and a remainder of the wider type, neither of them null: the quotient times the divisor and
-- the remainder make the dividend, and the remainder is smaller than the divisor and has the sign of
-- the dividend or is zero.
pub divide-modulo :
    (left right : Value)
    → IsValue left
    → either_null left right ≡ false
    → is_zero right ≡ false
    → (quotient remainder : ℤ) × (divide left right
        ≡ returned (present (wider left.type_id right.type_id) quotient))
      × (modulo left right ≡ returned (present (wider left.type_id right.type_id) remainder))
      × (quotient *ℤ right.number +ℤ remainder ≡ left.number)
      × (abs_ℤ remainder < abs_ℤ right.number)
      × ((remainder ≡ pos 0) ⊎ (is_negative remainder ≡ is_negative left.number))
unfolding is_zero unless_null
divide-modulo left right h e z =
    let t = wider left.type_id right.type_id in
    let x = left.number in
    let y = right.number in
    let i = IsValue-Inside left h (left_present left right e) in
    let qi =
      Inside-wider left.type_id right.type_id (x /ℤ y) (quotient-Inside left.type_id x y i) in
    let mi =
      Inside-wider left.type_id right.type_id (x %ℤ y) (remainder-Inside left.type_id x y i) in
    (
      x /ℤ y,
      x %ℤ y,
      rw (divide-answer left right h, e, z) (ap returned (value-Inside t (x /ℤ y) qi)),
      rw (modulo-answer left right h, e, z) (ap returned (value-Inside t (x %ℤ y) mi)),
      recompose x y,
      remainder_less x y z,
      remainder-sign x y,
    )

-- Whenever Add, Subtract, Multiply, Divide or Modulo of a well-formed value and another one returns,
-- the result is well formed and of the wider of the two types.
pub arithmetic-Typed :
    (left right : Value)
    → IsValue left
    → Typed (wider left.type_id right.type_id) (add left right)
      × Typed (wider left.type_id right.type_id) (subtract left right)
      × Typed (wider left.type_id right.type_id) (multiply left right)
      × Typed (wider left.type_id right.type_id) (divide left right)
      × Typed (wider left.type_id right.type_id) (modulo left right)
arithmetic-Typed left right h =
    let t1 = left.type_id in
    let t2 = right.type_id in
    (
      rw (add-exact left right) (unless_null-Typed left right _ (exact-Typed t1 t2 _)),
      rw (subtract-exact left right) (unless_null-Typed left right _ (exact-Typed t1 t2 _)),
      rw (multiply-exact left right) (unless_null-Typed left right _ (exact-Typed t1 t2 _)),
      rw (divide-answer left right h)
          (unless_null-Typed left right _ (nonzero-Typed right (wider t1 t2) _)),
      rw (modulo-answer left right h)
          (unless_null-Typed left right _ (nonzero-Typed right (wider t1 t2) _)),
    )

-- Add, Subtract and Multiply of two integer values answer the null of the wider type if one of them is
-- null, else the exact result where the wider type holds it, an OUT_OF_RANGE exception where only the
-- promoted C++ type holds it, and an overflow of that type otherwise.
pub arithmetic-exact :
    (left right : Value)
    → (add left right
        ≡ unless_null left right (exact left.type_id right.type_id (left.number +ℤ right.number)))
      × (subtract left right
          ≡ unless_null left right (exact left.type_id right.type_id (left.number -ℤ right.number)))
      × (multiply left right
          ≡ unless_null left right (exact left.type_id right.type_id (left.number *ℤ right.number)))
arithmetic-exact left right =
    (add-exact left right, subtract-exact left right, multiply-exact left right)
