-- ===== src/Types/Exact.antt =====
-- What the templates of src/include/type/integer_parent_type.h answer, in one formula.
use lab.Common.{
  zero, suc, ==ℤ_refl, ◌≡◌, refl, Bool, false, if◌then◌else◌, ℤ, pos, negsuc, ◌==ℤ◌, ◌+ℤ◌, ◌-ℤ◌,
  ◌*ℤ◌, ◌/ℤ◌, arith, Bool-cases, inl, inr,
}
use native.Mathlib.Nat.{mul-div_cancel, zero-div}
use lab.Types.Value.{
  IntType, fits, narrow, Value, value, Answer, returned, thrown, overflowed, out_of_range,
}
use lab.Types.Arithmetic.{
  promoted, at_least_as_wide, compute, fits_neither, sum_flips, add_value, difference_flips,
  subtract_value, product_differs, multiply_value,
}
use lab.Types.Narrow.{narrow_id, wider, fits_neither-fits, fits_wider-promoted}

-- The exact result z at the wider type, where that holds it; else an exception, where the promoted
-- type holds it.
unfoldable pub exact : IntType → IntType → ℤ → Answer Value
exact t1 t2 z =
    if fits (wider t1 t2) z
    then returned (value (wider t1 t2) z)
    else if fits (promoted t1 t2) z
    then thrown out_of_range
    else overflowed

sum-sum_flips : (x y : ℤ) → sum_flips x y (x +ℤ y) ≡ false
unfolding sum_flips ◌+ℤ◌
sum-sum_flips x y = ground arith

difference-difference_flips : (x y : ℤ) → difference_flips x y (x -ℤ y) ≡ false
unfolding difference_flips ◌-ℤ◌
difference-difference_flips x y = ground arith

-- The shape that the three checked templates share, with their test for a flipped sign as a parameter.
checked : IntType → IntType → Value → Value → ℤ → (ℤ → Bool) → Answer Value
checked t1 t2 left right z flips = compute t1 t2 z λ z.
    if fits_neither t1 t2 z
    then thrown out_of_range
    else if at_least_as_wide t1 t2
    then (if flips (narrow t1 z)
        then thrown out_of_range
        else returned (value left.type_id (narrow t1 z)))
    else if flips (narrow t2 z)
    then thrown out_of_range
    else returned (value right.type_id (narrow t2 z))

checked-exact :
    (left right : Value) (z : ℤ) (flips : ℤ → Bool)
    → flips z ≡ false
    → checked left.type_id right.type_id left right z flips ≡ exact left.type_id right.type_id z
unfolding checked exact compute wider
checked-exact left right z flips f =
    let t1 = left.type_id in
    let t2 = right.type_id in
    ground (
      arith,
      f,
      fits_neither-fits t1 t2 z,
      fits_wider-promoted t1 t2 z,
      narrow_id t1 z,
      narrow_id t2 z,
    )

product-quotient : (x y : ℤ) → y ==ℤ pos 0 ≡ false → (x *ℤ y) /ℤ y ≡ x
unfolding ◌*ℤ◌ ◌/ℤ◌
product-quotient (pos m) (pos zero) h = ground arith
product-quotient (pos m) (pos (suc n)) h =
    ground (arith, mul-div_cancel m {n = suc n} (omega arith))
product-quotient (pos zero) (negsuc n) h = ground (arith, zero-div (suc n))
product-quotient (pos (suc m)) (negsuc n) h =
    ground (arith, mul-div_cancel (suc m) {n = suc n} (omega arith))
product-quotient (negsuc m) (pos zero) h = ground arith
product-quotient (negsuc m) (pos (suc n)) h =
    ground (arith, mul-div_cancel (suc m) {n = suc n} (omega arith))
product-quotient (negsuc m) (negsuc n) h =
    ground (arith, mul-div_cancel (suc m) {n = suc n} (omega arith))

product-product_differs : (x y : ℤ) → product_differs x y (x *ℤ y) ≡ false
unfolding product_differs
product-product_differs x y = elim (Bool-cases (y ==ℤ pos 0)) [
  | inl h ↦ rw h refl
  | inr h ↦ rw (h, product-quotient x y h, ==ℤ_refl x) refl
]

pub add_value-exact :
    (left right : Value)
    → add_value left.type_id right.type_id left right
      ≡ exact left.type_id right.type_id (left.number +ℤ right.number)
unfolding add_value checked
add_value-exact left right =
    checked-exact left right _ (sum_flips left.number right.number)
      (sum-sum_flips left.number right.number)

pub subtract_value-exact :
    (left right : Value)
    → subtract_value left.type_id right.type_id left right
      ≡ exact left.type_id right.type_id (left.number -ℤ right.number)
unfolding subtract_value checked
subtract_value-exact left right =
    checked-exact left right _ (difference_flips left.number right.number)
      (difference-difference_flips left.number right.number)

pub multiply_value-exact :
    (left right : Value)
    → multiply_value left.type_id right.type_id left right
      ≡ exact left.type_id right.type_id (left.number *ℤ right.number)
unfolding multiply_value checked
multiply_value-exact left right =
    checked-exact left right _ (product_differs left.number right.number)
      (product-product_differs left.number right.number)
