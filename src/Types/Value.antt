-- ===== src/Types/Value.antt =====
-- The values of the integer types: src/include/type/{type_id.h,limits.h,value.h}, src/type/value.cpp.
-- A `Value` of TINYINT, SMALLINT, INTEGER or BIGINT is its type, the number in the union's member of
-- that type, and whether `size_.len_` is BUSTUB_VALUE_NULL. BOOLEAN, DECIMAL, TIMESTAMP and VARCHAR
-- values are not in the model.
use lab.Common.{
  ℕ, ◌+◌, ◌-◌, ◌*◌, ◌%◌, Bool, true, ◌||◌, ltb, if◌then◌else◌, ℤ, pos, negsuc, ◌==ℤ◌, ltb_ℤ, ◌≡◌,
  zero, suc, ◌/◌, List, [], ◌∷◌,
}

pub data IntType : Type 0 where
  tinyint : IntType
  smallint : IntType
  integer : IntType
  bigint : IntType

-- `sizeof` of the C++ type behind a type, which Type::GetTypeSize also answers.
unfoldable pub size_of : IntType → ℕ
size_of tinyint = 1
size_of smallint = 2
size_of integer = 4
size_of bigint = 8

-- The magnitude of the least number of a type, one above its greatest.
unfoldable pub half : IntType → ℕ
half tinyint = 0x80
half smallint = 0x8000
half integer = 0x80000000
half bigint = 0x8000000000000000

-- n ↦ n and -(n + 1) ↦ n: the distance to the type's bound counts from here on either side.
unfoldable pub payload : ℤ → ℕ
payload (pos n) = n
payload (negsuc n) = n

unfoldable pub fits : IntType → ℤ → Bool
fits t z = ltb (payload z) (half t)

-- The two's complement reading of a residue below 2 * h.
unfoldable pub signed : ℕ → ℕ → ℤ
signed h r = if ltb r h then pos r else negsuc (2 * h - r - 1)

-- `static_cast` to the C++ type, modulo two to its width.
unfoldable pub narrow : IntType → ℤ → ℤ
narrow t (pos n) = signed (half t) (n % (2 * half t))
narrow t (negsuc n) = signed (half t) (2 * half t - 1 - n % (2 * half t))

-- BUSTUB_INT8_NULL and its siblings: the least number of the C++ type.
unfoldable pub null_of : IntType → ℤ
null_of tinyint = negsuc 0x7F
null_of smallint = negsuc 0x7FFF
null_of integer = negsuc 0x7FFFFFFF
null_of bigint = negsuc 0x7FFFFFFFFFFFFFFF

-- BUSTUB_INT8_MIN and its siblings, one above the null.
unfoldable pub min_of : IntType → ℤ
min_of tinyint = negsuc 0x7E
min_of smallint = negsuc 0x7FFE
min_of integer = negsuc 0x7FFFFFFE
min_of bigint = negsuc 0x7FFFFFFFFFFFFFFE

unfoldable pub max_of : IntType → ℤ
max_of tinyint = pos 0x7F
max_of smallint = pos 0x7FFF
max_of integer = pos 0x7FFFFFFF
max_of bigint = pos 0x7FFFFFFFFFFFFFFF

pub record Value : Type 0 where
  pub type_id : IntType
  pub number : ℤ
  pub is_null : Bool

-- The constructors `Value(type, i)` for the integer types: the member takes i narrowed to its width.
unfoldable pub value : IntType → ℤ → Value
value t i = record { type_id = t; number = narrow t i; is_null = narrow t i ==ℤ null_of t }

-- What an operation answers: a result, an `Exception` of the type named, or undefined behaviour.
pub data Error : Type 0 where
  out_of_range : Error
  divide_by_zero : Error

pub data Answer {ℓ} (A : Type ℓ) : Type ℓ where
  returned : A → Answer A
  thrown : Error → Answer A
  overflowed : Answer A

unfoldable pub either_null : Value → Value → Bool
either_null left right = left.is_null || right.is_null

-- What the constructors give, and the operations keep.
unfoldable pub IsValue : Value → Type 0
IsValue v = (fits v.type_id v.number ≡ true) × (v.is_null ≡ (v.number ==ℤ null_of v.type_id))

-- IsZero of the four classes, which differ in the member they read.
unfoldable pub is_zero : Value → Bool
is_zero v = v.number ==ℤ pos 0

pub data CmpBool : Type 0 where
  cmp_false : CmpBool
  cmp_true : CmpBool
  cmp_null : CmpBool

unfoldable pub get_cmp_bool : Bool → CmpBool
get_cmp_bool boolean = if boolean then cmp_true else cmp_false

-- The null of a type, as the constructor makes it from BUSTUB_..._NULL.
unfoldable pub null_value : IntType → Value
null_value t = value t (null_of t)

-- `x > BUSTUB_..._MAX || x < BUSTUB_..._MIN`
unfoldable pub out_of_bounds : IntType → ℤ → Bool
out_of_bounds t x = ltb_ℤ (max_of t) x || ltb_ℤ x (min_of t)

-- The bytes of the C++ integer in memory, the least significant first, and the integer they hold.
unfoldable pub write_bytes : ℕ → ℕ → List ℕ
write_bytes zero u = []
write_bytes (suc w) u = u % 0x100 ∷ write_bytes w (u / 0x100)

unfoldable pub read_bytes : ℕ → List ℕ → ℕ
read_bytes zero storage = 0
read_bytes (suc w) [] = 0
read_bytes (suc w) (b ∷ storage) = b + 0x100 * read_bytes w storage

unfoldable pub store_int : IntType → ℤ → List ℕ
store_int t (pos n) = write_bytes (size_of t) n
store_int t (negsuc n) = write_bytes (size_of t) (2 * half t - 1 - n)

unfoldable pub load_int : IntType → List ℕ → ℤ
load_int t storage = signed (half t) (read_bytes (size_of t) storage)
