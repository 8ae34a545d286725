-- ===== src/Types/Smallint.antt =====
-- SmallintType, src/type/smallint_type.cpp, for right-hand sides of the four integer types, which pass the
-- asserts `CheckInteger` and `CheckComparable`. `left` is of this class's type.
use lab.Common.{Bool, not, if◌then◌else◌, List, ℕ, ℤ, ◌==ℤ◌, ltb_ℤ, leb_ℤ}
use lab.Types.Value.{
  IntType, tinyint, smallint, integer, bigint, Value, value, null_value, either_null, is_zero,
  Answer, returned, thrown, out_of_range, divide_by_zero, CmpBool, cmp_null, get_cmp_bool,
  out_of_bounds, store_int, load_int,
}
use lab.Types.Arithmetic.{add_value, subtract_value, multiply_value, divide_value, modulo_value}
use lab.Types.Methods.{Methods}

-- The type of the null is chosen by the right-hand side.
unfoldable pub operate_null : IntType → Value
operate_null tinyint = null_value smallint
operate_null smallint = null_value smallint
operate_null integer = null_value integer
operate_null bigint = null_value bigint

-- The switch of SMALLINT_MODIFY_FUNC on the type of the right-hand side.
unfoldable pub modify_func :
    IntType → (IntType → IntType → Value → Value → Answer Value) → Value → Value → Answer Value
modify_func tinyint method left right = method smallint tinyint left right
modify_func smallint method left right = method smallint smallint left right
modify_func integer method left right = method smallint integer left right
modify_func bigint method left right = method smallint bigint left right

-- SMALLINT_COMPARE_FUNC: every case reads the right-hand side at its own type.
unfoldable pub compare_func : (ℤ → ℤ → Bool) → Value → Value → CmpBool
compare_func op left right = get_cmp_bool (op left.number right.number)

unfoldable pub add : Value → Value → Answer Value
add left right =
    if either_null left right
    then returned (operate_null right.type_id)
    else modify_func right.type_id add_value left right

unfoldable pub subtract : Value → Value → Answer Value
subtract left right =
    if either_null left right
    then returned (operate_null right.type_id)
    else modify_func right.type_id subtract_value left right

unfoldable pub multiply : Value → Value → Answer Value
multiply left right =
    if either_null left right
    then returned (operate_null right.type_id)
    else modify_func right.type_id multiply_value left right

unfoldable pub divide : Value → Value → Answer Value
divide left right =
    if either_null left right
    then returned (operate_null right.type_id)
    else if is_zero right
    then thrown divide_by_zero
    else modify_func right.type_id divide_value left right

unfoldable pub modulo : Value → Value → Answer Value
modulo left right =
    if either_null left right
    then returned (operate_null right.type_id)
    else if is_zero right
    then thrown divide_by_zero
    else modify_func right.type_id modulo_value left right

unfoldable pub compare_equals : Value → Value → CmpBool
compare_equals left right =
    if either_null left right then cmp_null else compare_func ◌==ℤ◌ left right

unfoldable pub compare_not_equals : Value → Value → CmpBool
compare_not_equals left right =
    if either_null left right then cmp_null else compare_func (λ x y. not (x ==ℤ y)) left right

unfoldable pub compare_less_than : Value → Value → CmpBool
compare_less_than left right =
    if either_null left right then cmp_null else compare_func ltb_ℤ left right

unfoldable pub compare_less_than_equals : Value → Value → CmpBool
compare_less_than_equals left right =
    if either_null left right then cmp_null else compare_func leb_ℤ left right

unfoldable pub compare_greater_than : Value → Value → CmpBool
compare_greater_than left right =
    if either_null left right then cmp_null else compare_func (λ x y. ltb_ℤ y x) left right

unfoldable pub compare_greater_than_equals : Value → Value → CmpBool
compare_greater_than_equals left right =
    if either_null left right then cmp_null else compare_func (λ x y. leb_ℤ y x) left right

unfoldable pub serialize_to : Value → List ℕ
serialize_to val = store_int smallint val.number

unfoldable pub deserialize_from : List ℕ → Value
deserialize_from storage = value smallint (load_int smallint storage)

unfoldable pub copy : Value → Value
copy val = value smallint val.number

unfoldable pub cast_as : Value → IntType → Answer Value
cast_as val tinyint =
    if val.is_null
    then returned (null_value tinyint)
    else if out_of_bounds tinyint val.number
    then thrown out_of_range
    else returned (value tinyint val.number)
cast_as val smallint = if val.is_null then returned (null_value smallint) else returned (copy val)
cast_as val integer =
    if val.is_null then returned (null_value integer) else returned (value integer val.number)
cast_as val bigint =
    if val.is_null then returned (null_value bigint) else returned (value bigint val.number)

unfoldable pub methods : Methods
methods = record {
  add = add;
  subtract = subtract;
  multiply = multiply;
  divide = divide;
  modulo = modulo;
  operate_null = operate_null;
  compare_equals = compare_equals;
  compare_not_equals = compare_not_equals;
  compare_less_than = compare_less_than;
  compare_less_than_equals = compare_less_than_equals;
  compare_greater_than = compare_greater_than;
  compare_greater_than_equals = compare_greater_than_equals;
  serialize_to = serialize_to;
  deserialize_from = deserialize_from;
  copy = copy;
  cast_as = cast_as;
}
