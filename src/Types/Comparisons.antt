-- ===== src/Types/Comparisons.antt =====
-- The four classes behind Value's comparisons, as one test each. The classes are those of
-- src/type/{tinyint,smallint,integer,bigint}_type.cpp.
use lab.Common.{◌≡◌, refl, if◌then◌else◌, ltb_ℤ, leb_ℤ, ◌==ℤ◌, not}
use lab.Types.Value.{
  IntType, tinyint, smallint, integer, bigint, Value, either_null, cmp_null, get_cmp_bool,
}
use lab.Types.Tinyint
use lab.Types.Smallint
use lab.Types.Integer
use lab.Types.Bigint
use lab.Types.Dispatch.{
  get_instance, compare_equals, compare_not_equals, compare_less_than, compare_less_than_equals,
  compare_greater_than, compare_greater_than_equals,
}

compare_equals_class :
    (t : IntType) (left right : Value)
    → (get_instance t).compare_equals left right
      ≡ (if either_null left right then cmp_null else get_cmp_bool (left.number ==ℤ right.number))
unfolding get_instance Tinyint.methods Tinyint.compare_equals Tinyint.compare_func Smallint.methods
    Smallint.compare_equals Smallint.compare_func Integer.methods Integer.compare_equals
    Integer.compare_func Bigint.methods Bigint.compare_equals Bigint.compare_func
compare_equals_class tinyint left right = refl
compare_equals_class smallint left right = refl
compare_equals_class integer left right = refl
compare_equals_class bigint left right = refl

pub compare_equals_test :
    (left right : Value)
    → compare_equals left right
      ≡ (if either_null left right then cmp_null else get_cmp_bool (left.number ==ℤ right.number))
unfolding compare_equals
compare_equals_test left right = compare_equals_class left.type_id left right

compare_not_equals_class :
    (t : IntType) (left right : Value)
    → (get_instance t).compare_not_equals left right ≡ (
        if either_null left right
        then cmp_null
        else get_cmp_bool (not (left.number ==ℤ right.number)))
unfolding get_instance Tinyint.methods Tinyint.compare_not_equals Tinyint.compare_func
    Smallint.methods Smallint.compare_not_equals Smallint.compare_func Integer.methods
    Integer.compare_not_equals Integer.compare_func Bigint.methods Bigint.compare_not_equals
    Bigint.compare_func
compare_not_equals_class tinyint left right = refl
compare_not_equals_class smallint left right = refl
compare_not_equals_class integer left right = refl
compare_not_equals_class bigint left right = refl

pub compare_not_equals_test :
    (left right : Value)
    → compare_not_equals left right ≡ (
        if either_null left right
        then cmp_null
        else get_cmp_bool (not (left.number ==ℤ right.number)))
unfolding compare_not_equals
compare_not_equals_test left right = compare_not_equals_class left.type_id left right

compare_less_than_class :
    (t : IntType) (left right : Value)
    → (get_instance t).compare_less_than left right
      ≡ (if either_null left right then cmp_null else get_cmp_bool (ltb_ℤ left.number right.number))
unfolding get_instance Tinyint.methods Tinyint.compare_less_than Tinyint.compare_func
    Smallint.methods Smallint.compare_less_than Smallint.compare_func Integer.methods
    Integer.compare_less_than Integer.compare_func Bigint.methods Bigint.compare_less_than
    Bigint.compare_func
compare_less_than_class tinyint left right = refl
compare_less_than_class smallint left right = refl
compare_less_than_class integer left right = refl
compare_less_than_class bigint left right = refl

pub compare_less_than_test :
    (left right : Value)
    → compare_less_than left right
      ≡ (if either_null left right then cmp_null else get_cmp_bool (ltb_ℤ left.number right.number))
unfolding compare_less_than
compare_less_than_test left right = compare_less_than_class left.type_id left right

compare_less_than_equals_class :
    (t : IntType) (left right : Value)
    → (get_instance t).compare_less_than_equals left right
      ≡ (if either_null left right then cmp_null else get_cmp_bool (leb_ℤ left.number right.number))
unfolding get_instance Tinyint.methods Tinyint.compare_less_than_equals Tinyint.compare_func
    Smallint.methods Smallint.compare_less_than_equals Smallint.compare_func Integer.methods
    Integer.compare_less_than_equals Integer.compare_func Bigint.methods
    Bigint.compare_less_than_equals Bigint.compare_func
compare_less_than_equals_class tinyint left right = refl
compare_less_than_equals_class smallint left right = refl
compare_less_than_equals_class integer left right = refl
compare_less_than_equals_class bigint left right = refl

pub compare_less_than_equals_test :
    (left right : Value)
    → compare_less_than_equals left right
      ≡ (if either_null left right then cmp_null else get_cmp_bool (leb_ℤ left.number right.number))
unfolding compare_less_than_equals
compare_less_than_equals_test left right = compare_less_than_equals_class left.type_id left right

compare_greater_than_class :
    (t : IntType) (left right : Value)
    → (get_instance t).compare_greater_than left right
      ≡ (if either_null left right then cmp_null else get_cmp_bool (ltb_ℤ right.number left.number))
unfolding get_instance Tinyint.methods Tinyint.compare_greater_than Tinyint.compare_func
    Smallint.methods Smallint.compare_greater_than Smallint.compare_func Integer.methods
    Integer.compare_greater_than Integer.compare_func Bigint.methods Bigint.compare_greater_than
    Bigint.compare_func
compare_greater_than_class tinyint left right = refl
compare_greater_than_class smallint left right = refl
compare_greater_than_class integer left right = refl
compare_greater_than_class bigint left right = refl

pub compare_greater_than_test :
    (left right : Value)
    → compare_greater_than left right
      ≡ (if either_null left right then cmp_null else get_cmp_bool (ltb_ℤ right.number left.number))
unfolding compare_greater_than
compare_greater_than_test left right = compare_greater_than_class left.type_id left right

compare_greater_than_equals_class :
    (t : IntType) (left right : Value)
    → (get_instance t).compare_greater_than_equals left right
      ≡ (if either_null left right then cmp_null else get_cmp_bool (leb_ℤ right.number left.number))
unfolding get_instance Tinyint.methods Tinyint.compare_greater_than_equals Tinyint.compare_func
    Smallint.methods Smallint.compare_greater_than_equals Smallint.compare_func Integer.methods
    Integer.compare_greater_than_equals Integer.compare_func Bigint.methods
    Bigint.compare_greater_than_equals Bigint.compare_func
compare_greater_than_equals_class tinyint left right = refl
compare_greater_than_equals_class smallint left right = refl
compare_greater_than_equals_class integer left right = refl
compare_greater_than_equals_class bigint left right = refl

pub compare_greater_than_equals_test :
    (left right : Value)
    → compare_greater_than_equals left right
      ≡ (if either_null left right then cmp_null else get_cmp_bool (leb_ℤ right.number left.number))
unfolding compare_greater_than_equals
compare_greater_than_equals_test left right =
    compare_greater_than_equals_class left.type_id left right
