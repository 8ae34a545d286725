-- ===== src/Execution/Aggregation.antt =====
-- AggregationExecutor with its SimpleAggregationHashTable, src/execution/aggregation_executor.cpp and
-- src/include/execution/executors/aggregation_executor.h, over values of the integer types. The
-- expressions of the plan are functions of a row. The `std::unordered_map` is the list of its entries,
-- searched by AggregateKey's `==`; the order in which it is walked is the parameter `walk_order`.
pub mod Totals
pub mod Groups
use lab.Common.{
  ℕ, zero, suc, Bool, true, false, ◌&&◌, if◌then◌else◌, Option, none, some, List, [], ◌∷◌, ◌++◌, ℤ,
  pos, Outcome, ok, undefined, exception, out_of_fuel, ◌>>=◌,
}
use lab.Types.Value.{
  IntType, integer, Value, value, min_of, max_of, Answer, returned, thrown, overflowed,
}
use lab.Types.Dispatch
use lab.Types.Dispatch.{is_true, compare_equals}
use lab.Execution.Executor.{Executor}

pub data AggregationType : Type 0 where
  count_aggregate : AggregationType
  sum_aggregate : AggregationType
  min_aggregate : AggregationType
  max_aggregate : AggregationType

-- An arithmetic answer inside a query: an `Exception`, or an overflow of the C++ type.
unfoldable pub outcome : {A : Type 0} → Answer A → Outcome A
outcome (returned a) = ok a
outcome (thrown e) = exception
outcome overflowed = undefined

-- ValueFactory::GetIntegerValue
unfoldable pub get_integer_value : ℤ → Value
get_integer_value i = value integer i

unfoldable pub initial_value : AggregationType → Value
initial_value count_aggregate = get_integer_value (pos 0)
initial_value sum_aggregate = get_integer_value (pos 0)
initial_value min_aggregate = get_integer_value (max_of integer)
initial_value max_aggregate = get_integer_value (min_of integer)

unfoldable pub generate_initial_aggregate_value : List AggregationType → List Value
generate_initial_aggregate_value [] = []
generate_initial_aggregate_value (t ∷ ts) = initial_value t ∷ generate_initial_aggregate_value ts

unfoldable pub combine_one : AggregationType → Value → Value → Outcome Value
combine_one count_aggregate result input = outcome (Dispatch.add result (get_integer_value (pos 1)))
combine_one sum_aggregate result input = outcome (Dispatch.add result input)
combine_one min_aggregate result input = ok (Dispatch.min result input)
combine_one max_aggregate result input = ok (Dispatch.max result input)

-- An index outside `aggregates_` is undefined.
unfoldable pub combine_aggregate_values :
    List AggregationType → List Value → List Value → Outcome (List Value)
combine_aggregate_values [] results inputs = ok results
combine_aggregate_values (t ∷ ts) [] inputs = undefined
combine_aggregate_values (t ∷ ts) (r ∷ rs) [] = undefined
combine_aggregate_values (t ∷ ts) (r ∷ rs) (x ∷ xs) =
    combine_one t r x >>= λ v. combine_aggregate_values ts rs xs >>= λ vs. ok (v ∷ vs)

-- AggregateKey's `==`. The keys of a plan have one length.
unfoldable pub same_key : List Value → List Value → Bool
same_key ks [] = true
same_key [] (o ∷ os) = false
same_key (k ∷ ks) (o ∷ os) = is_true (compare_equals k o) && same_key ks os

abbrev pub Table : Type 0
Table = List (List Value × List Value)

unfoldable pub find : List Value → Table → Option (List Value)
find key [] = none
find key ((at, entry) ∷ table) = if same_key key at then some entry else find key table

unfoldable pub assign : List Value → List Value → Table → Table
assign key entry [] = []
assign key entry ((at, old) ∷ table) =
    if same_key key at then (at, entry) ∷ table else (at, old) ∷ assign key entry table

-- `ht.insert` of a new group, when `ht.count` is 0.
unfoldable pub insert_missing : List AggregationType → Table → List Value → Table
insert_missing types table key = elim (find key table) [
  | none ↦ (key, generate_initial_aggregate_value types) ∷ table
  | some entry ↦ table
]

-- `CombineAggregateValues(&ht[agg_key], agg_val)`; `ht[agg_key]` makes an entry without values for a key
-- that it does not find.
unfoldable pub combine_at : List AggregationType → Table → List Value → List Value → Outcome Table
combine_at types table key val = elim (find key table) [
  | none ↦ combine_aggregate_values types [] val >>= λ entry. ok ((key, entry) ∷ table)
  | some old ↦ combine_aggregate_values types old val >>= λ entry. ok (assign key entry table)
]

unfoldable pub insert_combine :
    List AggregationType → Table → List Value → List Value → Outcome Table
insert_combine types table key val = combine_at types (insert_missing types table key) key val

pub record AggregationState (S : Type 0) : Type 0 where
  pub child : S
  pub aht : Table

module _ {S R T : Type 0} (child_executor : Executor S R) (types : List AggregationType)
    (make_key make_val : R → List Value) (having : Option (List Value → List Value → Bool))
    (output : List Value → List Value → T) (walk_order : Table → Table) where
  unfoldable pub init : AggregationState S → Outcome (AggregationState S)
  init s = child_executor.init s.child >>= λ c. ok (record { child = c; aht = s.aht })

  -- The loop over the child, with whether it has met a row.
  unfoldable pub gather : ℕ → AggregationState S → Bool → Outcome (AggregationState S × Bool)
  gather zero s first = out_of_fuel
  gather (suc n) s first = child_executor.next s.child >>= λ r. elim (r.0) [
    | none ↦ ok (record { child = r.1; aht = s.aht }, first)
    | some row ↦ insert_combine types s.aht (make_key row) (make_val row) >>= λ table.
        gather n (record { child = r.1; aht = table }) true
  ]

  -- The loop over the table.
  unfoldable pub first_group : Table → Option T
  first_group [] = none
  first_group ((key, entry) ∷ table) =
      let rest = first_group table in
      elim having [
        | none ↦ some (output key entry)
        | some p ↦ if p key entry then some (output key entry) else rest
      ]

  unfoldable pub next : ℕ → AggregationState S → Outcome (Option T × AggregationState S)
  next fuel s = gather fuel s false >>= λ r.
      if r.1 then ok (first_group (walk_order (r.0.aht)), r.0) else ok (none, r.0)

  unfoldable pub executor : ℕ → Executor (AggregationState S) T
  executor fuel = record { init = init; next = next fuel }
