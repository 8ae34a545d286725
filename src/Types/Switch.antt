-- ===== src/Types/Switch.antt =====
-- The four classes behind Value's arithmetic, as one formula each: which template runs, which null is
-- answered. The classes are those of src/type/{tinyint,smallint,integer,bigint}_type.cpp.
use lab.Common.{◌≡◌, refl, if◌then◌else◌}
use lab.Types.Value.{
  IntType, tinyint, smallint, integer, bigint, size_of, Value, null_value, either_null, is_zero,
  Answer, returned, thrown, divide_by_zero,
}
use lab.Types.Arithmetic.{
  add_value, subtract_value, multiply_value, divide_value, modulo_value, at_least_as_wide,
}
use lab.Types.Narrow.{wider}
use lab.Types.Tinyint
use lab.Types.Smallint
use lab.Types.Integer
use lab.Types.Bigint
use lab.Types.Dispatch.{get_instance, add, subtract, multiply, divide, modulo, operate_null}

null_choice : (t1 t2 : IntType) → (get_instance t1).operate_null t2 ≡ null_value (wider t1 t2)
unfolding get_instance Tinyint.methods Tinyint.operate_null Smallint.methods Smallint.operate_null
    Integer.methods Integer.operate_null Bigint.methods Bigint.operate_null wider at_least_as_wide
    size_of
null_choice tinyint tinyint = refl
null_choice tinyint smallint = refl
null_choice tinyint integer = refl
null_choice tinyint bigint = refl
null_choice smallint tinyint = refl
null_choice smallint smallint = refl
null_choice smallint integer = refl
null_choice smallint bigint = refl
null_choice integer tinyint = refl
null_choice integer smallint = refl
null_choice integer integer = refl
null_choice integer bigint = refl
null_choice bigint tinyint = refl
null_choice bigint smallint = refl
null_choice bigint integer = refl
null_choice bigint bigint = refl

pub operate_null-wider :
    (left right : Value) → operate_null left right ≡ null_value (wider left.type_id right.type_id)
unfolding operate_null
operate_null-wider left right = null_choice left.type_id right.type_id

-- Each class's switch on the right-hand side's type runs the template at that type.
tinyint_switch :
    (t : IntType) (method : IntType → IntType → Value → Value → Answer Value) (left right : Value)
    → Tinyint.modify_func t method left right ≡ method tinyint t left right
unfolding Tinyint.modify_func
tinyint_switch tinyint method left right = refl
tinyint_switch smallint method left right = refl
tinyint_switch integer method left right = refl
tinyint_switch bigint method left right = refl

smallint_switch :
    (t : IntType) (method : IntType → IntType → Value → Value → Answer Value) (left right : Value)
    → Smallint.modify_func t method left right ≡ method smallint t left right
unfolding Smallint.modify_func
smallint_switch tinyint method left right = refl
smallint_switch smallint method left right = refl
smallint_switch integer method left right = refl
smallint_switch bigint method left right = refl

integer_switch :
    (t : IntType) (method : IntType → IntType → Value → Value → Answer Value) (left right : Value)
    → Integer.modify_func t method left right ≡ method integer t left right
unfolding Integer.modify_func
integer_switch tinyint method left right = refl
integer_switch smallint method left right = refl
integer_switch integer method left right = refl
integer_switch bigint method left right = refl

bigint_switch :
    (t : IntType) (method : IntType → IntType → Value → Value → Answer Value) (left right : Value)
    → Bigint.modify_func t method left right ≡ method bigint t left right
unfolding Bigint.modify_func
bigint_switch tinyint method left right = refl
bigint_switch smallint method left right = refl
bigint_switch integer method left right = refl
bigint_switch bigint method left right = refl

add_class :
    (t : IntType) (left right : Value)
    → (get_instance t).add left right ≡ (
        if either_null left right
        then returned ((get_instance t).operate_null right.type_id)
        else add_value t right.type_id left right)
unfolding get_instance Tinyint.methods Tinyint.add Smallint.methods Smallint.add Integer.methods
    Integer.add Bigint.methods Bigint.add
add_class tinyint left right = rw (tinyint_switch right.type_id add_value left right) refl
add_class smallint left right = rw (smallint_switch right.type_id add_value left right) refl
add_class integer left right = rw (integer_switch right.type_id add_value left right) refl
add_class bigint left right = rw (bigint_switch right.type_id add_value left right) refl

pub add_template :
    (left right : Value)
    → add left right ≡ (
        if either_null left right
        then returned (null_value (wider left.type_id right.type_id))
        else add_value left.type_id right.type_id left right)
unfolding add
add_template left right =
    rw (add_class left.type_id left right, null_choice left.type_id right.type_id) refl

subtract_class :
    (t : IntType) (left right : Value)
    → (get_instance t).subtract left right ≡ (
        if either_null left right
        then returned ((get_instance t).operate_null right.type_id)
        else subtract_value t right.type_id left right)
unfolding get_instance Tinyint.methods Tinyint.subtract Smallint.methods Smallint.subtract
    Integer.methods Integer.subtract Bigint.methods Bigint.subtract
subtract_class tinyint left right = rw (tinyint_switch right.type_id subtract_value left right) refl
subtract_class smallint left right =
    rw (smallint_switch right.type_id subtract_value left right) refl
subtract_class integer left right = rw (integer_switch right.type_id subtract_value left right) refl
subtract_class bigint left right = rw (bigint_switch right.type_id subtract_value left right) refl

pub subtract_template :
    (left right : Value)
    → subtract left right ≡ (
        if either_null left right
        then returned (null_value (wider left.type_id right.type_id))
        else subtract_value left.type_id right.type_id left right)
unfolding subtract
subtract_template left right =
    rw (subtract_class left.type_id left right, null_choice left.type_id right.type_id) refl

multiply_class :
    (t : IntType) (left right : Value)
    → (get_instance t).multiply left right ≡ (
        if either_null left right
        then returned ((get_instance t).operate_null right.type_id)
        else multiply_value t right.type_id left right)
unfolding get_instance Tinyint.methods Tinyint.multiply Smallint.methods Smallint.multiply
    Integer.methods Integer.multiply Bigint.methods Bigint.multiply
multiply_class tinyint left right = rw (tinyint_switch right.type_id multiply_value left right) refl
multiply_class smallint left right =
    rw (smallint_switch right.type_id multiply_value left right) refl
multiply_class integer left right = rw (integer_switch right.type_id multiply_value left right) refl
multiply_class bigint left right = rw (bigint_switch right.type_id multiply_value left right) refl

pub multiply_template :
    (left right : Value)
    → multiply left right ≡ (
        if either_null left right
        then returned (null_value (wider left.type_id right.type_id))
        else multiply_value left.type_id right.type_id left right)
unfolding multiply
multiply_template left right =
    rw (multiply_class left.type_id left right, null_choice left.type_id right.type_id) refl

divide_class :
    (t : IntType) (left right : Value)
    → (get_instance t).divide left right ≡ (
        if either_null left right
        then returned ((get_instance t).operate_null right.type_id)
        else if is_zero right
        then thrown divide_by_zero
        else divide_value t right.type_id left right)
unfolding get_instance Tinyint.methods Tinyint.divide Smallint.methods Smallint.divide
    Integer.methods Integer.divide Bigint.methods Bigint.divide
divide_class tinyint left right = rw (tinyint_switch right.type_id divide_value left right) refl
divide_class smallint left right = rw (smallint_switch right.type_id divide_value left right) refl
divide_class integer left right = rw (integer_switch right.type_id divide_value left right) refl
divide_class bigint left right = rw (bigint_switch right.type_id divide_value left right) refl

pub divide_template :
    (left right : Value)
    → divide left right ≡ (
        if either_null left right
        then returned (null_value (wider left.type_id right.type_id))
        else if is_zero right
        then thrown divide_by_zero
        else divide_value left.type_id right.type_id left right)
unfolding divide
divide_template left right =
    rw (divide_class left.type_id left right, null_choice left.type_id right.type_id) refl

modulo_class :
    (t : IntType) (left right : Value)
    → (get_instance t).modulo left right ≡ (
        if either_null left right
        then returned ((get_instance t).operate_null right.type_id)
        else if is_zero right
        then thrown divide_by_zero
        else modulo_value t right.type_id left right)
unfolding get_instance Tinyint.methods Tinyint.modulo Smallint.methods Smallint.modulo
    Integer.methods Integer.modulo Bigint.methods Bigint.modulo
modulo_class tinyint left right = rw (tinyint_switch right.type_id modulo_value left right) refl
modulo_class smallint left right = rw (smallint_switch right.type_id modulo_value left right) refl
modulo_class integer left right = rw (integer_switch right.type_id modulo_value left right) refl
modulo_class bigint left right = rw (bigint_switch right.type_id modulo_value left right) refl

pub modulo_template :
    (left right : Value)
    → modulo left right ≡ (
        if either_null left right
        then returned (null_value (wider left.type_id right.type_id))
        else if is_zero right
        then thrown divide_by_zero
        else modulo_value left.type_id right.type_id left right)
unfolding modulo
modulo_template left right =
    rw (modulo_class left.type_id left right, null_choice left.type_id right.type_id) refl
