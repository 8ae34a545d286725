-- ===== src/Types/Divide.antt =====
-- Division and remainder of the integer types: the templates of
-- src/include/type/integer_parent_type.h answer within the wider type, and never the null.
use lab.Common.{
  suc, ◌/◌, ◌%◌, ◌<◌, ◌≡◌, refl, sym, ◌∙◌, true, false, if◌then◌else◌, ℤ, pos, negsuc, ◌==ℤ◌, ◌+ℤ◌,
  ◌*ℤ◌, ◌/ℤ◌, ◌%ℤ◌, abs_ℤ, arith,
}
use native.Mathlib.Nat.{div-add-mod', div-le_self, mod-le, mod-lt}
use lab.Types.Value.{
  IntType, tinyint, smallint, integer, bigint, half, payload, fits, narrow, null_of, Value, value,
  IsValue, returned,
}
use lab.Types.Arithmetic.{at_least_as_wide, compute, divide_value, modulo_value}
use lab.Types.Narrow.{narrow_id, wider, half_mono, narrower, fits_wider-promoted}

pub quotient-abs : (x y : ℤ) → abs_ℤ (x /ℤ y) ≡ abs_ℤ x / abs_ℤ y
unfolding ◌/ℤ◌
quotient-abs x y = ground arith

pub remainder-abs : (x y : ℤ) → abs_ℤ (x %ℤ y) ≡ abs_ℤ x % abs_ℤ y
unfolding ◌%ℤ◌
remainder-abs x y = ground arith

-- A number strictly inside the bounds of a type fits it and is not its null.
unfoldable pub Inside : IntType → ℤ → Type 0
Inside t z = abs_ℤ z < half t

pub Inside-fits : (t : IntType) (z : ℤ) → Inside t z → fits t z ≡ true
unfolding Inside fits payload
Inside-fits t z h = ground arith

pub Inside-null_of : (t : IntType) (z : ℤ) → Inside t z → z ==ℤ null_of t ≡ false
unfolding Inside half null_of
Inside-null_of tinyint z h = ground arith
Inside-null_of smallint z h = ground arith
Inside-null_of integer z h = ground arith
Inside-null_of bigint z h = ground arith

number-Inside : (t : IntType) (z : ℤ) → fits t z ≡ true → z ==ℤ null_of t ≡ false → Inside t z
unfolding Inside half null_of fits payload
number-Inside tinyint z f n = ground arith
number-Inside smallint z f n = ground arith
number-Inside integer z f n = ground arith
number-Inside bigint z f n = ground arith

pub IsValue-Inside : (v : Value) → IsValue v → v.is_null ≡ false → Inside v.type_id v.number
unfolding IsValue
IsValue-Inside v (f, n) h = number-Inside v.type_id v.number f (sym n ∙ h)

pub Inside-wider : (t1 t2 : IntType) (z : ℤ) → Inside t1 z → Inside (wider t1 t2) z
unfolding Inside wider
Inside-wider t1 t2 z h = ground (arith, half_mono t1 t2, half_mono t2 t1, narrower t1 t2)

pub quotient-Inside : (t : IntType) (x y : ℤ) → Inside t x → Inside t (x /ℤ y)
unfolding Inside
quotient-Inside t x y h = omega (arith, quotient-abs x y, div-le_self (abs_ℤ x) (abs_ℤ y))

pub remainder-Inside : (t : IntType) (x y : ℤ) → Inside t x → Inside t (x %ℤ y)
unfolding Inside
remainder-Inside t x y h = omega (arith, remainder-abs x y, mod-le (abs_ℤ x) (abs_ℤ y))

pub remainder_less : (x y : ℤ) → y ==ℤ pos 0 ≡ false → abs_ℤ (x %ℤ y) < abs_ℤ y
remainder_less x y h = rw (remainder-abs x y) (mod-lt (abs_ℤ x) {m = abs_ℤ y} (ground arith))

pub recompose : (x y : ℤ) → x /ℤ y *ℤ y +ℤ x %ℤ y ≡ x
unfolding ◌/ℤ◌ ◌%ℤ◌ ◌*ℤ◌ ◌+ℤ◌
recompose (pos m) (pos n) = ground (arith, div-add-mod' m n)
recompose (pos m) (negsuc n) = ground (arith, div-add-mod' m (suc n))
recompose (negsuc m) (pos n) = ground (arith, div-add-mod' (suc m) n)
recompose (negsuc m) (negsuc n) = ground (arith, div-add-mod' (suc m) (suc n))

-- The value of a number inside the bounds of its type holds that number.
pub value-Inside :
    (t : IntType) (z : ℤ)
    → Inside t z
    → value t z ≡ record { type_id = t; number = z; is_null = false }
unfolding value
value-Inside t z h = rw (narrow_id t z (Inside-fits t z h), Inside-null_of t z h) refl

-- The answer of either template for a result z, when the quotient q is inside the bounds.
placed :
    (left right : Value) (q z : ℤ)
    → Inside left.type_id q
    → Inside left.type_id z
    → compute left.type_id right.type_id q (λ _.
      if at_least_as_wide left.type_id right.type_id
      then returned (value left.type_id (narrow left.type_id z))
      else returned (value right.type_id (narrow right.type_id z)))
      ≡ returned (value (wider left.type_id right.type_id) z)
unfolding compute wider
placed left right q z hq hz =
    let t1 = left.type_id in
    let t2 = right.type_id in
    let fq = Inside-fits (wider t1 t2) q (Inside-wider t1 t2 q hq) in
    let fz = Inside-fits (wider t1 t2) z (Inside-wider t1 t2 z hz) in
    ground (arith, fits_wider-promoted t1 t2 q fq, narrow_id t1 z, narrow_id t2 z, fz)

pub divide_value-quotient :
    (left right : Value)
    → Inside left.type_id left.number
    → right.number ==ℤ pos 0 ≡ false
    → divide_value left.type_id right.type_id left right
      ≡ returned (value (wider left.type_id right.type_id) (left.number /ℤ right.number))
unfolding divide_value compute
divide_value-quotient left right h n =
    let x = left.number in
    let y = right.number in
    let q = quotient-Inside left.type_id x y h in rw n (placed left right (x /ℤ y) (x /ℤ y) q q)

pub modulo_value-remainder :
    (left right : Value)
    → Inside left.type_id left.number
    → right.number ==ℤ pos 0 ≡ false
    → modulo_value left.type_id right.type_id left right
      ≡ returned (value (wider left.type_id right.type_id) (left.number %ℤ right.number))
unfolding modulo_value
modulo_value-remainder left right h n =
    let x = left.number in
    let y = right.number in
    rw n (
      placed left right (x /ℤ y) (x %ℤ y) (quotient-Inside left.type_id x y h)
        (remainder-Inside left.type_id x y h))
