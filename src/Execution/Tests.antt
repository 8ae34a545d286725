-- ===== src/Execution/Tests.antt =====
-- Queries over small tables, and instances of the results.
use lab.Common.{
  ℕ, zero, suc, ◌==◌, ◌≡◌, refl, true, false, Option, none, some, List, [], ◌∷◌, ok, undefined,
  out_of_fuel, pos, negsuc, ltb, Bool, ◌+ℤ◌, arith,
}
use lab.Types.Value.{integer, Value, half}
use lab.Types.Divide.{Inside}
use lab.Types.Results.{present}
use lab.Storage.TablePage.{TablePage, is_deleted, copy_out}
use lab.Storage.TableHeap.{TableHeap}
use lab.Storage.TableIterator.{TableIterator, blank}
use lab.Storage.TableIterator.Chain.{last_page, page, rids_of, content}
use lab.Types.Value.{either_null, get_cmp_bool}
use lab.Types.Dispatch.{compare_equals, get_instance, is_true}
use lab.Types.Integer
use lab.Storage.TablePage.Scan.{live_slots}
use lab.Execution.Executor.{Executor, Yields, finish, answer, execute}
use lab.Execution.Limit
use lab.Execution.Limit.{execute-take, next-stuck, take}
use lab.Execution.NestedLoopJoin
use lab.Execution.NestedLoopJoin.{joined, drop_to_match, matches}
use lab.Execution.NestedLoopJoin.Rows.{execute-joined}
use lab.Execution.SeqScan
use lab.Execution.SeqScan.{select, satisfies}
use lab.Execution.SeqScan.Rows.{execute-select}
use lab.Execution.Aggregation
use lab.Execution.Aggregation.{
  count_aggregate, sum_aggregate, initial_value, first_group, combine_aggregate_values, find, Table,
}
use lab.Execution.Aggregation.Totals.{combine_all, combine_all-total, column, total, SumsInside}
use lab.Execution.Aggregation.Groups.{
  insert_combine-has_null, has_null, build, to_list, execute-first_group,
}

-- A child that answers the rows of a list.
abbrev listed : {A : Type 0} → Executor (List A) A
listed = record {
  init = λ rows. ok rows;
  next = λ rows. elim rows [ [] ↦ ok (none, []) | row ∷ rest ↦ ok (some row, rest) ];
}

listed-Yields : {A : Type 0} (rows : List A) → Yields listed rows rows []
listed-Yields [] = finish refl
listed-Yields (row ∷ rows) = answer refl (listed-Yields rows)

abbrev three : List ℕ
three = 5 ∷ 6 ∷ 7 ∷ []

execute-take_example :
    execute (Limit.executor listed 2 0 1) 4 (Limit.initial three) ≡ ok (5 ∷ 6 ∷ [])
unfolding take
execute-take_example =
    execute-take listed 2 0 4 refl (listed-Yields three) (omega arith) (omega arith)

listed-total : (rows : List ℕ) → (r : Option ℕ × List ℕ) × (listed.next rows ≡ ok r)
listed-total [] = ((none, []), refl)
listed-total (row ∷ rows) = ((some row, rows), refl)

next-stuck_example : Limit.next listed 2 1 9 (Limit.initial three) ≡ out_of_fuel
next-stuck_example = next-stuck listed 2 1 listed-total 9 (Limit.initial three) (omega arith)

abbrev pair : ℕ → ℕ → ℕ × ℕ
pair l r = (l, r)

listed_stays :
    (rows : List ℕ)
    → rows ≡ []
    → (rest : List ℕ) × (listed.next rows ≡ ok (none, rest)) × (rest ≡ [])
listed_stays rows e = ([], rw e refl, refl)

abbrev sides : NestedLoopJoin.JoinState (List ℕ) (List ℕ)
sides = record { left_executor = 1 ∷ 2 ∷ []; right_executor = three }

abbrev larger : Option (ℕ → ℕ → Bool)
larger = some (λ l r. ltb 5 r)

execute-joined_example :
    execute (NestedLoopJoin.executor listed listed larger pair 10) 9 sides
    ≡ ok ((1, 6) ∷ (2, 7) ∷ [])
unfolding joined drop_to_match matches
execute-joined_example =
    execute-joined listed listed larger pair (λ rows. rows ≡ []) listed_stays 9 sides refl refl
      (listed-Yields (1 ∷ 2 ∷ [])) (listed-Yields three) refl (omega arith)

abbrev null_integer : Value
null_integer = record { type_id = integer; number = negsuc 0x7FFFFFFF; is_null = true }

combine_all-total_example :
    (combine_all count_aggregate
        (initial_value count_aggregate)
        (null_integer ∷ column (pos 4 ∷ pos 5 ∷ []))
      ≡ ok (present integer (pos 3)))
    × (combine_all sum_aggregate (initial_value sum_aggregate) (column (pos 4 ∷ pos 5 ∷ []))
        ≡ ok (present integer (pos 9)))
unfolding column total SumsInside Inside half ◌+ℤ◌
combine_all-total_example =
    combine_all-total (null_integer ∷ column (pos 4 ∷ pos 5 ∷ [])) (pos 4 ∷ pos 5 ∷ [])
      (omega arith) (omega arith, (omega arith, tt))

insert_combine-has_null_example :
    Aggregation.insert_combine (count_aggregate ∷ []) [] (null_integer ∷ []) (null_integer ∷ [])
    ≡ undefined
unfolding has_null find
insert_combine-has_null_example =
    insert_combine-has_null count_aggregate [] [] (null_integer ∷ []) (null_integer ∷ []) refl refl

abbrev key_of : ℕ → List Value
key_of n = present integer (pos n) ∷ []

-- Of the two groups of the rows one is answered.
execute-first_group_example :
    execute
      (Aggregation.executor listed [] key_of (λ n. []) none (λ key entry. key) (λ table. table) 4)
      3
      (record { child = 1 ∷ 2 ∷ 1 ∷ []; aht = [] })
    ≡ ok (key_of 2 ∷ [])
unfolding build Aggregation.insert_combine Aggregation.insert_missing Aggregation.combine_at find
    Aggregation.assign Aggregation.generate_initial_aggregate_value combine_aggregate_values
    Aggregation.same_key is_true compare_equals get_instance Integer.methods Integer.compare_equals
    Integer.compare_func get_cmp_bool either_null to_list first_group
execute-first_group_example =
    execute-first_group listed [] key_of (λ n. []) none (λ key entry. key) (λ table. table) 3 1
      ((key_of 2, []) ∷ (key_of 1, []) ∷ []) refl (listed-Yields (1 ∷ 2 ∷ 1 ∷ [])) refl
      (omega arith) refl

-- A table of two pages: one tuple on the first, and on the second a deleted tuple before another one.
abbrev first_page : TablePage
first_page = record {
  table_page_id = 3;
  prev_page_id = none;
  next_page_id = some 5;
  free_space_pointer = 4090;
  tuple_count = 1;
  offsets = λ i. 4090;
  sizes = λ i. 6;
  bytes = λ i. 7;
}

abbrev second_page : TablePage
second_page = record {
  table_page_id = 5;
  prev_page_id = some 3;
  next_page_id = none;
  free_space_pointer = 4080;
  tuple_count = 2;
  offsets = λ i. elim i [ zero ↦ 4090 | suc n ↦ 4080 ];
  sizes = λ i. elim i [ zero ↦ 0 | suc n ↦ 8 ];
  bytes = λ i. 9;
}

abbrev table : TableHeap
table = record {
  first_page_id = 3;
  next_page_id = 6;
  pages = λ id. elim (id == 3) [ true ↦ first_page | false ↦ second_page ];
}

abbrev start : TableIterator
start = record { rid = none; tuple = blank; txn = record { aborted = false; write_set = [] } }

-- The scan that keeps the tuples of more than six bytes.
execute-select_example :
    execute
      (SeqScan.executor (λ id. true) table 3 (some (λ t. ltb 6 t.size)) (λ t. t.size) 3)
      3
      start
    ≡ ok ((record { page_id = 5; slot_num = 1 }, 8) ∷ [])
unfolding select satisfies rids_of content live_slots is_deleted copy_out
execute-select_example =
    execute-select (λ id. true) table 3 (some (λ t. ltb 6 t.size)) (λ t. t.size) 3 start (5 ∷ [])
      (page {id = 3} refl refl refl (last_page {id = 5} refl refl refl)) (omega arith) (omega arith)
