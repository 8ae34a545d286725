-- ===== src/Execution/Aggregation/Totals.antt =====
-- COUNT and SUM over the rows of a group: CombineAggregateValues of
-- src/include/execution/executors/aggregation_executor.h.
use lab.Common.{
  ℕ, suc, ◌+◌, ◌<◌, ◌≡◌, refl, ap, ◌∙◌, List, [], ◌∷◌, length, ℤ, pos, ◌+ℤ◌, Outcome, ok, ◌>>=◌,
  arith,
}
use lab.Types.Value.{
  integer, Value, value, null_of, narrow, signed, size_of, half, either_null, returned,
}
use lab.Types.Arithmetic.{at_least_as_wide}
use lab.Types.Narrow.{wider}
use lab.Types.Divide.{Inside, Inside-fits, value-Inside}
use lab.Types.Exact.{exact}
use lab.Types.Results.{unless_null, add-exact, present}
use lab.Types.Dispatch.{add}
use lab.Execution.Aggregation.{
  AggregationType, count_aggregate, sum_aggregate, outcome, get_integer_value, initial_value,
  combine_one,
}

-- The aggregate of one column over the inputs of a group.
unfoldable pub combine_all : AggregationType → Value → List Value → Outcome Value
combine_all t result [] = ok result
combine_all t result (x ∷ xs) = combine_one t result x >>= λ v. combine_all t v xs

-- Two INTEGERs, not null, with a sum strictly inside the bounds.
add-Inside :
    (x y : ℤ)
    → Inside integer (x +ℤ y)
    → add (present integer x) (present integer y) ≡ returned (present integer (x +ℤ y))
unfolding unless_null exact wider at_least_as_wide size_of either_null
add-Inside x y h =
    add-exact (present integer x) (present integer y)
    ∙ rw (Inside-fits integer (x +ℤ y) h) (ap returned (value-Inside integer (x +ℤ y) h))

one_more : (c : ℕ) → pos c +ℤ pos 1 ≡ pos (c + 1)
unfolding ◌+ℤ◌
one_more c = ground arith

small : (c : ℕ) → c < 0x80000000 → Inside integer (pos c)
unfolding Inside half
small c h = omega arith

integer_one : get_integer_value (pos 1) ≡ present integer (pos 1)
unfolding get_integer_value value narrow signed half null_of
integer_one = refl

count_one :
    (c : ℕ) (x : Value)
    → c + 1 < 0x80000000
    → combine_one count_aggregate (present integer (pos c)) x ≡ ok (present integer (pos (c + 1)))
unfolding combine_one outcome
count_one c x b =
    rw (integer_one, add-Inside (pos c) (pos 1) (rw (one_more c) (small (c + 1) b)), one_more c)
      refl

count_from :
    (c : ℕ) (xs : List Value)
    → c + length xs < 0x80000000
    → combine_all count_aggregate (present integer (pos c)) xs
      ≡ ok (present integer (pos (c + length xs)))
unfolding combine_all
count_from c [] b =
    let same : c ≡ c + 0 = omega arith in ap (λ n. ok (present integer (pos n))) same
count_from c (x ∷ xs) b =
    let same : c + 1 + length xs ≡ c + suc (length xs) = omega arith in
    rw (count_one c x (omega arith))
      (count_from (c + 1) xs (omega arith) ∙ ap (λ n. ok (present integer (pos n))) same)

-- The inputs of a column of INTEGERs, none of them null.
unfoldable pub column : List ℤ → List Value
column [] = []
column (x ∷ xs) = present integer x ∷ column xs

unfoldable pub total : ℤ → List ℤ → ℤ
total s [] = s
total s (x ∷ xs) = total (s +ℤ x) xs

-- Every sum on the way is strictly inside the bounds of an INTEGER.
unfoldable pub SumsInside : ℤ → List ℤ → Type 0
SumsInside s [] = Unit
SumsInside s (x ∷ xs) = Inside integer (s +ℤ x) × SumsInside (s +ℤ x) xs

sum_from :
    (s : ℤ) (xs : List ℤ)
    → SumsInside s xs
    → combine_all sum_aggregate (present integer s) (column xs) ≡ ok (present integer (total s xs))
unfolding combine_all combine_one outcome column total SumsInside
sum_from s [] h = refl
sum_from s (x ∷ xs) (h, hs) = rw (add-Inside s x h) (sum_from (s +ℤ x) xs hs)

integer_zero : get_integer_value (pos 0) ≡ present integer (pos 0)
unfolding get_integer_value value narrow signed half null_of
integer_zero = refl

-- From their initial values COUNT over any values, nulls included and fewer than 2^31, comes to their
-- number, and SUM over INTEGERs that are not null comes to their sum, if each sum on the way is
-- strictly between -2^31 and 2^31.
pub combine_all-total :
    (rows : List Value) (xs : List ℤ)
    → length rows < 0x80000000
    → SumsInside (pos 0) xs
    → (combine_all count_aggregate (initial_value count_aggregate) rows
        ≡ ok (present integer (pos (length rows))))
      × (combine_all sum_aggregate (initial_value sum_aggregate) (column xs)
          ≡ ok (present integer (total (pos 0) xs)))
unfolding initial_value
combine_all-total rows xs b h = (
  rw integer_zero
      (count_from 0 rows (omega arith) ∙ ap (λ n. ok (present integer (pos n))) (omega arith)),
  rw integer_zero (sum_from (pos 0) xs h),
)
