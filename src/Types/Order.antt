-- ===== src/Types/Order.antt =====
-- The comparisons, Min and Max of the integer types. src/include/type/type.h notes how five of the
-- comparisons follow from CompareLessThan.
use lab.Common.{
  ◌≡◌, refl, sym, ap, ◌∙◌, true, false, not, ◌&&◌, ℤ, ◌==ℤ◌, ltb_ℤ, leb_ℤ, ◌≤ℤ◌, arith, Bool-cases,
  inl, inr, ◌⊎◌,
}
use lab.Types.Value.{
  IntType, tinyint, smallint, integer, bigint, null_of, Value, value, IsValue, either_null, CmpBool,
  cmp_true, cmp_false, cmp_null, get_cmp_bool,
}
use lab.Types.Narrow.{narrow_id}
use lab.Types.Tinyint
use lab.Types.Smallint
use lab.Types.Integer
use lab.Types.Bigint
use lab.Types.Dispatch.{
  compare_equals, compare_not_equals, compare_less_than, compare_less_than_equals,
  compare_greater_than, compare_greater_than_equals, get_instance, copy, min, max, is_true,
}
use lab.Types.Comparisons.{
  compare_equals_test, compare_not_equals_test, compare_less_than_test,
  compare_less_than_equals_test, compare_greater_than_test, compare_greater_than_equals_test,
}

-- Negation, conjunction and disjunction of comparison results, null when an operand is.
unfoldable pub cmp_not : CmpBool → CmpBool
cmp_not cmp_false = cmp_true
cmp_not cmp_true = cmp_false
cmp_not cmp_null = cmp_null

unfoldable pub cmp_or : CmpBool → CmpBool → CmpBool
cmp_or cmp_null b = cmp_null
cmp_or cmp_true cmp_null = cmp_null
cmp_or cmp_true cmp_true = cmp_true
cmp_or cmp_true cmp_false = cmp_true
cmp_or cmp_false b = b

unfoldable pub cmp_and : CmpBool → CmpBool → CmpBool
cmp_and a b = cmp_not (cmp_or (cmp_not a) (cmp_not b))

either_null_comm : (left right : Value) → either_null right left ≡ either_null left right
unfolding either_null
either_null_comm left right = ground arith

equals_of_less : (x y : ℤ) → (x ==ℤ y) ≡ (not (ltb_ℤ x y) && not (ltb_ℤ y x))
equals_of_less x y = ground arith

-- The other five comparisons follow from CompareLessThan as a note in the sources has it, also when an
-- operand is null: equal is less in neither order, not equal is the negation of equal, less or equal
-- is less or equal, and greater and greater or equal are negations.
pub compare-less :
    (left right : Value)
    → (compare_equals left right
        ≡ cmp_and (cmp_not (compare_less_than left right)) (cmp_not (compare_less_than right left)))
      × (compare_not_equals left right ≡ cmp_not (compare_equals left right))
      × (compare_less_than_equals left right
          ≡ cmp_or (compare_less_than left right) (compare_equals left right))
      × (compare_greater_than left right ≡ cmp_not (compare_less_than_equals left right))
      × (compare_greater_than_equals left right ≡ cmp_not (compare_less_than left right))
unfolding cmp_not cmp_or cmp_and get_cmp_bool
compare-less left right =
    rw
      (
        compare_equals_test left right,
        compare_not_equals_test left right,
        compare_less_than_test left right,
        compare_less_than_test right left,
        compare_less_than_equals_test left right,
        compare_greater_than_test left right,
        compare_greater_than_equals_test left right,
        either_null_comm left right,
      )
      (ground arith)

copy_class : (t : IntType) (v : Value) → v.type_id ≡ t → (get_instance t).copy v ≡ value t v.number
unfolding get_instance Tinyint.methods Tinyint.copy Smallint.methods Smallint.copy Integer.methods
    Integer.copy Bigint.methods Bigint.copy
copy_class tinyint v h = refl
copy_class smallint v h = refl
copy_class integer v h = ap (λ t. value t v.number) h
copy_class bigint v h = refl

pub value-IsValue : (v : Value) → IsValue v → value v.type_id v.number ≡ v
unfolding value IsValue
value-IsValue v (f, n) = λ i. record {
  type_id = v.type_id;
  number = narrow_id v.type_id v.number f i;
  is_null = (ap (λ z. z ==ℤ null_of v.type_id) (narrow_id v.type_id v.number f) ∙ sym n) i;
}

pub copy_same : (v : Value) → IsValue v → copy v ≡ v
unfolding copy
copy_same v h = copy_class v.type_id v refl ∙ value-IsValue v h

not_less : (x y : ℤ) → ltb_ℤ x y ≡ true → leb_ℤ y x ≡ false
not_less x y h = ground arith

less_or : (x y : ℤ) → ltb_ℤ x y ≡ false → leb_ℤ y x ≡ true
less_or x y h = ground arith

-- Min and Max of two well-formed values that are not null answer the two values, one each, and the
-- number of the first is at most that of the second.
pub min-max :
    (left right : Value)
    → IsValue left
    → IsValue right
    → either_null left right ≡ false
    → (((min left right ≡ left) × (max left right ≡ right))
        ⊎ ((min left right ≡ right) × (max left right ≡ left)))
      × ((min left right).number ≤ℤ (max left right).number)
unfolding min max is_true get_cmp_bool
min-max left right hl hr e = elim (Bool-cases (ltb_ℤ left.number right.number)) [
  | inl h ↦
      rw
        (
          e,
          compare_less_than_test left right,
          compare_greater_than_equals_test left right,
          e,
          h,
          not_less left.number right.number h,
          copy_same left hl,
          copy_same right hr,
        )
        (inl (refl, refl), ground arith)
  | inr h ↦
      rw
        (
          e,
          compare_less_than_test left right,
          compare_greater_than_equals_test left right,
          e,
          h,
          less_or left.number right.number h,
          copy_same left hl,
          copy_same right hr,
        )
        (inr (refl, refl), ground arith)
]
