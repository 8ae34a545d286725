-- ===== src/Types/Tests.antt =====
-- Runs of the arithmetic of src/type at its bounds, and instances of the results.
use lab.Common.{
  ◌≡◌, refl, ◌<◌, ◌⊎◌, false, true, ℤ, pos, negsuc, ◌+ℤ◌, ◌-ℤ◌, ◌*ℤ◌, [], ◌∷◌, ◌++◌, abs_ℤ,
  is_negative,
}
use lab.Types.Value.{
  tinyint, integer, bigint, Value, value, IsValue, either_null, is_zero, size_of, fits, half,
  payload, narrow, signed, null_of, returned, thrown, overflowed, out_of_range,
}
use lab.Types.Arithmetic.{promoted, at_least_as_wide}
use lab.Types.Narrow.{wider}
use lab.Types.Exact.{exact}
use lab.Types.Results.{
  unless_null, arithmetic-exact, add-exact, divide-modulo, Typed, arithmetic-Typed, present,
}
use lab.Types.Order.{compare-less, cmp_and, cmp_not, cmp_or}
use lab.Types.Cast.{cast_as-cast_as, deserialize_from-serialize_to}
use lab.Types.Dispatch.{
  add, subtract, multiply, divide, modulo, cast_as, serialize_to, deserialize_from, compare_equals,
  compare_not_equals, compare_less_than, compare_less_than_equals, compare_greater_than,
  compare_greater_than_equals,
}

abbrev tiny : ℤ → Value
tiny z = record { type_id = tinyint; number = z; is_null = false }

abbrev whole : ℤ → Value
whole z = record { type_id = integer; number = z; is_null = false }

tiny_hundred : IsValue (tiny (pos 100))
unfolding IsValue fits half payload null_of
tiny_hundred = (refl, refl)

whole_minus_seven : IsValue (whole (negsuc 6))
unfolding IsValue fits half payload null_of
whole_minus_seven = (refl, refl)

-- As TINYINT, 100 + -28 is 72, 100 - -28 is out of range, and 100 * -28 is out of range.
arithmetic-exact_example :
    (add (tiny (pos 100)) (tiny (negsuc 27)) ≡ returned (tiny (pos 72)))
    × (subtract (tiny (pos 100)) (tiny (negsuc 27)) ≡ thrown out_of_range)
    × (multiply (tiny (pos 100)) (tiny (negsuc 27)) ≡ thrown out_of_range)
unfolding unless_null exact wider either_null promoted at_least_as_wide size_of fits half payload
    value narrow signed null_of ◌+ℤ◌ ◌-ℤ◌ ◌*ℤ◌
arithmetic-exact_example = arithmetic-exact (tiny (pos 100)) (tiny (negsuc 27))

-- The sum -128 of two TINYINTs is the null.
sum_is_null : add (tiny (negsuc 99)) (tiny (negsuc 27)) ≡ returned (value tinyint (negsuc 127))
unfolding unless_null exact wider either_null promoted at_least_as_wide size_of fits half payload
    ◌+ℤ◌
sum_is_null = add-exact (tiny (negsuc 99)) (tiny (negsuc 27))

value_is_null : (value tinyint (negsuc 127)).is_null ≡ true
unfolding value narrow signed half null_of
value_is_null = refl

-- The greatest INTEGER and one overflow the int in which they are added.
sum_overflows : add (whole (pos 0x7FFFFFFF)) (whole (pos 1)) ≡ overflowed
unfolding unless_null exact wider either_null promoted at_least_as_wide size_of fits half payload
    ◌+ℤ◌
sum_overflows = add-exact (whole (pos 0x7FFFFFFF)) (whole (pos 1))

divide-modulo_example :
    (quotient remainder : ℤ) × (divide (whole (negsuc 6)) (tiny (pos 100))
      ≡ returned (present integer quotient))
    × (modulo (whole (negsuc 6)) (tiny (pos 100)) ≡ returned (present integer remainder))
    × (quotient *ℤ pos 100 +ℤ remainder ≡ negsuc 6)
    × (abs_ℤ remainder < 100)
    × ((remainder ≡ pos 0) ⊎ (is_negative remainder ≡ true))
unfolding either_null is_zero wider at_least_as_wide size_of
divide-modulo_example =
    divide-modulo (whole (negsuc 6)) (tiny (pos 100)) whole_minus_seven refl refl

arithmetic-Typed_example :
    Typed integer (add (whole (negsuc 6)) (tiny (pos 100)))
    × Typed integer (subtract (whole (negsuc 6)) (tiny (pos 100)))
    × Typed integer (multiply (whole (negsuc 6)) (tiny (pos 100)))
    × Typed integer (divide (whole (negsuc 6)) (tiny (pos 100)))
    × Typed integer (modulo (whole (negsuc 6)) (tiny (pos 100)))
unfolding wider at_least_as_wide size_of
arithmetic-Typed_example = arithmetic-Typed (whole (negsuc 6)) (tiny (pos 100)) whole_minus_seven

abbrev low : Value
low = whole (negsuc 6)

abbrev high : Value
high = tiny (pos 100)

compare-less_example :
    (compare_equals low high
      ≡ cmp_and (cmp_not (compare_less_than low high)) (cmp_not (compare_less_than high low)))
    × (compare_not_equals low high ≡ cmp_not (compare_equals low high))
    × (compare_less_than_equals low high
        ≡ cmp_or (compare_less_than low high) (compare_equals low high))
    × (compare_greater_than low high ≡ cmp_not (compare_less_than_equals low high))
    × (compare_greater_than_equals low high ≡ cmp_not (compare_less_than low high))
compare-less_example = compare-less low high

cast_as-cast_as_example :
    (w : Value) × (cast_as high bigint ≡ returned w) × (cast_as w tinyint ≡ returned high)
unfolding at_least_as_wide size_of
cast_as-cast_as_example = cast_as-cast_as high bigint tiny_hundred refl

deserialize_from-serialize_to_example : deserialize_from (serialize_to low ++ 9 ∷ []) integer ≡ low
deserialize_from-serialize_to_example = deserialize_from-serialize_to low (9 ∷ []) whole_minus_seven
