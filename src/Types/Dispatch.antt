-- ===== src/Types/Dispatch.antt =====
-- The functions of Value that go to the class of the value's type, src/include/type/value.h, the table
-- `k_types` of src/type/type.cpp, and Min and Max of src/type/integer_parent_type.cpp.
use lab.Common.{Bool, true, false, if◌then◌else◌, List, ℕ}
use lab.Types.Value.{
  IntType, tinyint, smallint, integer, bigint, Value, value, min_of, max_of, either_null, Answer,
  CmpBool, cmp_true, cmp_false, cmp_null,
}
use lab.Types.Methods.{Methods}
use lab.Types.Tinyint
use lab.Types.Smallint
use lab.Types.Integer
use lab.Types.Bigint

unfoldable pub get_instance : IntType → Methods
get_instance tinyint = Tinyint.methods
get_instance smallint = Smallint.methods
get_instance integer = Integer.methods
get_instance bigint = Bigint.methods

unfoldable pub add : Value → Value → Answer Value
add left right = (get_instance left.type_id).add left right

unfoldable pub subtract : Value → Value → Answer Value
subtract left right = (get_instance left.type_id).subtract left right

unfoldable pub multiply : Value → Value → Answer Value
multiply left right = (get_instance left.type_id).multiply left right

unfoldable pub divide : Value → Value → Answer Value
divide left right = (get_instance left.type_id).divide left right

unfoldable pub modulo : Value → Value → Answer Value
modulo left right = (get_instance left.type_id).modulo left right

unfoldable pub compare_equals : Value → Value → CmpBool
compare_equals left right = (get_instance left.type_id).compare_equals left right

unfoldable pub compare_not_equals : Value → Value → CmpBool
compare_not_equals left right = (get_instance left.type_id).compare_not_equals left right

unfoldable pub compare_less_than : Value → Value → CmpBool
compare_less_than left right = (get_instance left.type_id).compare_less_than left right

unfoldable pub compare_less_than_equals : Value → Value → CmpBool
compare_less_than_equals left right =
    (get_instance left.type_id).compare_less_than_equals left right

unfoldable pub compare_greater_than : Value → Value → CmpBool
compare_greater_than left right = (get_instance left.type_id).compare_greater_than left right

unfoldable pub compare_greater_than_equals : Value → Value → CmpBool
compare_greater_than_equals left right =
    (get_instance left.type_id).compare_greater_than_equals left right

unfoldable pub operate_null : Value → Value → Value
operate_null left right = (get_instance left.type_id).operate_null right.type_id

unfoldable pub serialize_to : Value → List ℕ
serialize_to val = (get_instance val.type_id).serialize_to val

unfoldable pub deserialize_from : List ℕ → IntType → Value
deserialize_from storage t = (get_instance t).deserialize_from storage

unfoldable pub copy : Value → Value
copy val = (get_instance val.type_id).copy val

unfoldable pub cast_as : Value → IntType → Answer Value
cast_as val t = (get_instance val.type_id).cast_as val t

unfoldable pub is_true : CmpBool → Bool
is_true cmp_true = true
is_true cmp_false = false
is_true cmp_null = false

unfoldable pub min : Value → Value → Value
min left right =
    if either_null left right
    then operate_null left right
    else if is_true (compare_less_than left right)
    then copy left
    else copy right

unfoldable pub max : Value → Value → Value
max left right =
    if either_null left right
    then operate_null left right
    else if is_true (compare_greater_than_equals left right)
    then copy left
    else copy right

-- Type::GetMinValue and Type::GetMaxValue for the integer types.
unfoldable pub get_min_value : IntType → Value
get_min_value t = value t (min_of t)

unfoldable pub get_max_value : IntType → Value
get_max_value t = value t (max_of t)
