-- ===== src/Types/Cast.antt =====
-- CastAs, SerializeTo and DeserializeFrom of the integer types.
use lab.Common.{
  ℕ, zero, suc, ◌-◌, ◌*◌, ◌/◌, ◌^◌, ◌<◌, List, ◌++◌, ◌≡◌, refl, sym, ap, ◌∙◌, true, false,
  if◌then◌else◌, ℤ, pos, negsuc, arith, Bool-cases, ==ℤ_iff, inl, inr,
}
use lab.Types.Value.{
  IntType, tinyint, smallint, integer, bigint, size_of, half, payload, fits, signed, narrow,
  null_of, min_of, max_of, Value, value, null_value, IsValue, Answer, returned, thrown,
  out_of_range, out_of_bounds, write_bytes, read_bytes, store_int, load_int,
}
use lab.Types.Arithmetic.{at_least_as_wide}
use lab.Types.Narrow.{half_mono, half_pos, signed_pos, signed_negsuc}
use lab.Types.Divide.{Inside, Inside-fits, Inside-null_of, IsValue-Inside, value-Inside}
use lab.Types.Order.{value-IsValue}
use lab.Types.Tinyint
use lab.Types.Smallint
use lab.Types.Integer
use lab.Types.Bigint
use lab.Types.Dispatch.{get_instance, cast_as, serialize_to, deserialize_from}

pub Inside-out_of_bounds : (t : IntType) (z : ℤ) → Inside t z → out_of_bounds t z ≡ false
unfolding Inside half out_of_bounds min_of max_of
Inside-out_of_bounds tinyint z h = ground arith
Inside-out_of_bounds smallint z h = ground arith
Inside-out_of_bounds integer z h = ground arith
Inside-out_of_bounds bigint z h = ground arith

-- A cast to the type t, with the test for its bounds.
unfoldable pub bounded_cast : Value → IntType → Answer Value
bounded_cast v t =
    if v.is_null
    then returned (null_value t)
    else if out_of_bounds t v.number
    then thrown out_of_range
    else returned (value t v.number)

-- A cast without the test, to a type that holds every number of the value's type.
unbounded :
    (v : Value) (t : IntType) (w : Answer Value)
    → w ≡ returned (value t v.number)
    → (v.is_null ≡ false → Inside t v.number)
    → (if v.is_null then returned (null_value t) else w) ≡ bounded_cast v t
unfolding bounded_cast
unbounded v t w e i = elim (Bool-cases v.is_null) [
  | inl h ↦ rw h refl
  | inr h ↦ rw (h, Inside-out_of_bounds t v.number (i h)) e
]

bounds_tested :
    (v : Value) (t : IntType)
    → (if v.is_null
        then returned (null_value t)
        else if out_of_bounds t v.number
        then thrown out_of_range
        else returned (value t v.number))
      ≡ bounded_cast v t
unfolding bounded_cast
bounds_tested v t = refl

widening : (t1 t2 : IntType) (z : ℤ) → at_least_as_wide t2 t1 ≡ true → Inside t1 z → Inside t2 z
unfolding Inside
widening t1 t2 z w h = ground (arith, half_mono t2 t1 w)

casting :
    (t1 t2 : IntType) (v : Value)
    → (v.is_null ≡ false → Inside t1 v.number)
    → (get_instance t1).cast_as v t2 ≡ bounded_cast v t2
unfolding get_instance Tinyint.methods Tinyint.cast_as Tinyint.copy Smallint.methods
    Smallint.cast_as Smallint.copy Integer.methods Integer.cast_as Bigint.methods Bigint.cast_as
    Bigint.copy at_least_as_wide size_of
casting tinyint tinyint v h =
    unbounded v tinyint _ refl (λ n. widening tinyint tinyint v.number refl (h n))
casting tinyint smallint v h =
    unbounded v smallint _ refl (λ n. widening tinyint smallint v.number refl (h n))
casting tinyint integer v h =
    unbounded v integer _ refl (λ n. widening tinyint integer v.number refl (h n))
casting tinyint bigint v h =
    unbounded v bigint _ refl (λ n. widening tinyint bigint v.number refl (h n))
casting smallint tinyint v h = bounds_tested v tinyint
casting smallint smallint v h =
    unbounded v smallint _ refl (λ n. widening smallint smallint v.number refl (h n))
casting smallint integer v h =
    unbounded v integer _ refl (λ n. widening smallint integer v.number refl (h n))
casting smallint bigint v h =
    unbounded v bigint _ refl (λ n. widening smallint bigint v.number refl (h n))
casting integer tinyint v h = bounds_tested v tinyint
casting integer smallint v h = bounds_tested v smallint
casting integer integer v h =
    unbounded v integer _ refl (λ n. widening integer integer v.number refl (h n))
casting integer bigint v h =
    unbounded v bigint _ refl (λ n. widening integer bigint v.number refl (h n))
casting bigint tinyint v h = bounds_tested v tinyint
casting bigint smallint v h = bounds_tested v smallint
casting bigint integer v h = bounds_tested v integer
casting bigint bigint v h =
    unbounded v bigint _ refl (λ n. widening bigint bigint v.number refl (h n))

pub cast_as-bounded : (v : Value) (t : IntType) → IsValue v → cast_as v t ≡ bounded_cast v t
unfolding cast_as
cast_as-bounded v t h = casting v.type_id t v (IsValue-Inside v h)

null_value-IsValue : (t : IntType) → IsValue (null_value t)
unfolding IsValue null_value value narrow null_of fits half payload signed
null_value-IsValue tinyint = (refl, refl)
null_value-IsValue smallint = (refl, refl)
null_value-IsValue integer = (refl, refl)
null_value-IsValue bigint = (refl, refl)

null_value-is_null : (t : IntType) → (null_value t).is_null ≡ true
unfolding null_value value narrow null_of half signed
null_value-is_null tinyint = refl
null_value-is_null smallint = refl
null_value-is_null integer = refl
null_value-is_null bigint = refl

-- A null is the null of its type.
null-same : (v : Value) → IsValue v → v.is_null ≡ true → null_value v.type_id ≡ v
unfolding null_value IsValue
null-same v h n =
    ap (value v.type_id) (sym ((==ℤ_iff v.number _).0 (sym h.1 ∙ n))) ∙ value-IsValue v h

Inside-IsValue :
    (t : IntType) (z : ℤ)
    → Inside t z
    → IsValue (record { type_id = t; number = z; is_null = false })
unfolding IsValue
Inside-IsValue t z h = (Inside-fits t z h, sym (Inside-null_of t z h))

-- A well-formed value, null or not, that is cast to a type at least as wide and back is the value
-- again; neither cast throws.
pub cast_as-cast_as :
    (v : Value) (t : IntType)
    → IsValue v
    → at_least_as_wide t v.type_id ≡ true
    → (w : Value) × (cast_as v t ≡ returned w) × (cast_as w v.type_id ≡ returned v)
unfolding bounded_cast
cast_as-cast_as v t h wide = elim (Bool-cases v.is_null) [
  | inl n ↦ (
    null_value t,
    rw (cast_as-bounded v t h, n) refl,
    rw (cast_as-bounded (null_value t) v.type_id (null_value-IsValue t), null_value-is_null t)
        (ap returned (null-same v h n)),
  )
  | inr n ↦
      let i = IsValue-Inside v h n in
      let j = widening v.type_id t v.number wide i in
      (
        value t v.number,
        rw (cast_as-bounded v t h, n, Inside-out_of_bounds t v.number j) refl,
        rw
            (
              value-Inside t v.number j,
              cast_as-bounded (record { type_id = t; number = v.number; is_null = false }) v.type_id
                  (Inside-IsValue t v.number j),
              Inside-out_of_bounds v.type_id v.number i,
            )
            (ap returned (value-IsValue v h)),
      )
]

-- The bytes written, behind which anything may stand, give the number back.
read_bytes-write_bytes :
    (w u : ℕ) (rest : List ℕ) → u < 0x100 ^ w → read_bytes w (write_bytes w u ++ rest) ≡ u
unfolding read_bytes write_bytes
read_bytes-write_bytes zero u rest h = omega arith
read_bytes-write_bytes (suc w) u rest h =
    omega (arith, read_bytes-write_bytes w (u / 0x100) rest (omega arith))

width : (t : IntType) → 0x100 ^ size_of t ≡ 2 * half t
unfolding size_of half
width tinyint = refl
width smallint = refl
width integer = refl
width bigint = refl

load_int-store_int :
    (t : IntType) (z : ℤ) (rest : List ℕ) → fits t z ≡ true → load_int t (store_int t z ++ rest) ≡ z
unfolding load_int store_int fits payload
load_int-store_int t (pos n) rest h =
    rw (read_bytes-write_bytes (size_of t) n rest (ground (arith, width t)))
      (signed_pos (half t) n (ground arith))
load_int-store_int t (negsuc n) rest h =
    rw
      (read_bytes-write_bytes (size_of t) (2 * half t - 1 - n) rest
        (ground (arith, width t, half_pos t)))
      (signed_negsuc (half t) n (ground arith))

serializing :
    (t : IntType) (v : Value) (rest : List ℕ)
    → fits t v.number ≡ true
    → (get_instance t).deserialize_from ((get_instance t).serialize_to v ++ rest) ≡ value t v.number
unfolding get_instance Tinyint.methods Tinyint.serialize_to Tinyint.deserialize_from
    Smallint.methods Smallint.serialize_to Smallint.deserialize_from Integer.methods
    Integer.serialize_to Integer.deserialize_from Bigint.methods Bigint.serialize_to
    Bigint.deserialize_from
serializing tinyint v rest h = ap (value tinyint) (load_int-store_int tinyint v.number rest h)
serializing smallint v rest h = ap (value smallint) (load_int-store_int smallint v.number rest h)
serializing integer v rest h = ap (value integer) (load_int-store_int integer v.number rest h)
serializing bigint v rest h = ap (value bigint) (load_int-store_int bigint v.number rest h)

-- DeserializeFrom reads a well-formed value back from the bytes that SerializeTo writes, whatever
-- stands behind them.
pub deserialize_from-serialize_to :
    (v : Value) (rest : List ℕ)
    → IsValue v
    → deserialize_from (serialize_to v ++ rest) v.type_id ≡ v
unfolding deserialize_from serialize_to IsValue
deserialize_from-serialize_to v rest h = serializing v.type_id v rest h.0 ∙ value-IsValue v h
