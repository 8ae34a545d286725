-- ===== src/Types/Arithmetic.antt =====
-- The templates of IntegerParentType, src/include/type/integer_parent_type.h. The operands of C++'s
-- arithmetic are promoted to `int`, or to `int64_t` when either is one, and a result that the promoted
-- type cannot hold is undefined behaviour.
use lab.Common.{
  Bool, not, ◌&&◌, ◌||◌, leb, if◌then◌else◌, ℤ, pos, ◌==ℤ◌, ◌+ℤ◌, ◌-ℤ◌, ◌*ℤ◌, ◌/ℤ◌, ◌%ℤ◌,
  is_negative, is_positive,
}
use lab.Types.Value.{
  IntType, tinyint, smallint, integer, bigint, size_of, fits, narrow, Value, value, Answer,
  returned, thrown, overflowed, out_of_range, divide_by_zero,
}

unfoldable pub promoted : IntType → IntType → IntType
promoted bigint t2 = bigint
promoted tinyint bigint = bigint
promoted smallint bigint = bigint
promoted integer bigint = bigint
promoted tinyint t2 = integer
promoted smallint t2 = integer
promoted integer t2 = integer

-- `sizeof(x) >= sizeof(y)`
unfoldable pub at_least_as_wide : IntType → IntType → Bool
at_least_as_wide t1 t2 = leb (size_of t2) (size_of t1)

-- `x + y` and its siblings at the promoted type.
unfoldable pub compute {ℓ} : {A : Type ℓ} → IntType → IntType → ℤ → (ℤ → Answer A) → Answer A
compute t1 t2 z then_ = if fits (promoted t1 t2) z then then_ z else overflowed

unfoldable pub fits_neither : IntType → IntType → ℤ → Bool
fits_neither t1 t2 z = not (z ==ℤ narrow t1 z) && not (z ==ℤ narrow t2 z)

unfoldable pub sum_flips : ℤ → ℤ → ℤ → Bool
sum_flips x y sum =
    (is_positive x && is_positive y && is_negative sum)
    || (is_negative x && is_negative y && is_positive sum)

unfoldable pub add_value : IntType → IntType → Value → Value → Answer Value
add_value t1 t2 left right =
    let x = left.number in
    let y = right.number in
    compute t1 t2 (x +ℤ y) λ z.
      let sum1 = narrow t1 z in
      let sum2 = narrow t2 z in
      if fits_neither t1 t2 z
      then thrown out_of_range
      else if at_least_as_wide t1 t2
      then (if sum_flips x y sum1 then thrown out_of_range else returned (value left.type_id sum1))
      else if sum_flips x y sum2
      then thrown out_of_range
      else returned (value right.type_id sum2)

unfoldable pub difference_flips : ℤ → ℤ → ℤ → Bool
difference_flips x y diff =
    (is_positive x && is_negative y && is_negative diff)
    || (is_negative x && is_positive y && is_positive diff)

unfoldable pub subtract_value : IntType → IntType → Value → Value → Answer Value
subtract_value t1 t2 left right =
    let x = left.number in
    let y = right.number in
    compute t1 t2 (x -ℤ y) λ z.
      let diff1 = narrow t1 z in
      let diff2 = narrow t2 z in
      if fits_neither t1 t2 z
      then thrown out_of_range
      else if at_least_as_wide t1 t2
      then (if difference_flips x y diff1
          then thrown out_of_range
          else returned (value left.type_id diff1))
      else if difference_flips x y diff2
      then thrown out_of_range
      else returned (value right.type_id diff2)

unfoldable pub product_differs : ℤ → ℤ → ℤ → Bool
product_differs x y prod = not (y ==ℤ pos 0) && not (prod /ℤ y ==ℤ x)

unfoldable pub multiply_value : IntType → IntType → Value → Value → Answer Value
multiply_value t1 t2 left right =
    let x = left.number in
    let y = right.number in
    compute t1 t2 (x *ℤ y) λ z.
      let prod1 = narrow t1 z in
      let prod2 = narrow t2 z in
      if fits_neither t1 t2 z
      then thrown out_of_range
      else if at_least_as_wide t1 t2
      then (if product_differs x y prod1
          then thrown out_of_range
          else returned (value left.type_id prod1))
      else if product_differs x y prod2
      then thrown out_of_range
      else returned (value right.type_id prod2)

unfoldable pub divide_value : IntType → IntType → Value → Value → Answer Value
divide_value t1 t2 left right =
    let x = left.number in
    let y = right.number in
    if y ==ℤ pos 0
    then thrown divide_by_zero
    else compute t1 t2 (x /ℤ y) λ z.
      if at_least_as_wide t1 t2
      then returned (value left.type_id (narrow t1 z))
      else returned (value right.type_id (narrow t2 z))

-- `x % y` is undefined where `x / y` is.
unfoldable pub modulo_value : IntType → IntType → Value → Value → Answer Value
modulo_value t1 t2 left right =
    let x = left.number in
    let y = right.number in
    if y ==ℤ pos 0
    then thrown divide_by_zero
    else compute t1 t2 (x /ℤ y) λ quotient.
      if at_least_as_wide t1 t2
      then returned (value left.type_id (narrow t1 (x %ℤ y)))
      else returned (value right.type_id (narrow t2 (x %ℤ y)))
