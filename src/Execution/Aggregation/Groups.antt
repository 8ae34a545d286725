-- ===== src/Execution/Aggregation/Groups.antt =====
-- The groups of an aggregation, and the one that src/execution/aggregation_executor.cpp answers.
use lab.Common.{
  ℕ, zero, suc, ◌<◌, ◌≡◌, refl, sym, ap, ◌∙◌, Bool, true, false, ◌||◌, Option, none, some, List, [],
  ◌∷◌, length, Outcome, ok, undefined, ◌>>=◌, bind_ok, ok-injective, arith, Option-cases, inl, inr,
}
use lab.Types.Value.{Value, either_null}
use lab.Types.Comparisons.{compare_equals_test}
use lab.Types.Dispatch.{is_true, compare_equals}
use lab.Execution.Executor.{Executor, Yields, finish, answer, execute, execute-Yields}
use lab.Execution.Aggregation.{
  AggregationType, generate_initial_aggregate_value, combine_aggregate_values, same_key, Table,
  find, insert_missing, combine_at, insert_combine, AggregationState, init, gather, first_group,
  next, executor,
}

unfoldable pub has_null : List Value → Bool
has_null [] = false
has_null (k ∷ ks) = k.is_null || has_null ks

null_equals : (k : Value) → k.is_null ≡ true → is_true (compare_equals k k) ≡ false
unfolding is_true either_null
null_equals k h = rw (compare_equals_test k k, h) refl

-- A key with a null is not equal to itself.
null_key : (ks : List Value) → has_null ks ≡ true → same_key ks ks ≡ false
unfolding has_null same_key
null_key [] h = sym h
null_key (k ∷ ks) h = ground (arith, null_equals k, null_key ks)

missing_inserted :
    (types : List AggregationType) (table : Table) (key : List Value)
    → find key table ≡ none
    → insert_missing types table key ≡ (key, generate_initial_aggregate_value types) ∷ table
unfolding insert_missing
missing_inserted types table key missing = rw (insert_missing, missing) refl

combine_missing :
    (t : AggregationType) (ts : List AggregationType) (table : Table) (key val : List Value)
    → find key table ≡ none
    → combine_at (t ∷ ts) table key val ≡ undefined
unfolding combine_at combine_aggregate_values
combine_missing t ts table key val missing = rw (combine_at, missing) refl

-- InsertCombine of a key with a null that is not found in the table, for one aggregate or more, is
-- undefined: it goes on with an entry that has no values.
pub insert_combine-has_null :
    (t : AggregationType) (ts : List AggregationType) (table : Table) (key val : List Value)
    → has_null key ≡ true
    → find key table ≡ none
    → insert_combine (t ∷ ts) table key val ≡ undefined
unfolding insert_combine find
insert_combine-has_null t ts table key val h missing =
    let entry = generate_initial_aggregate_value (t ∷ ts) in
    ap (λ table. combine_at (t ∷ ts) table key val) (missing_inserted (t ∷ ts) table key missing)
    ∙ combine_missing t ts ((key, entry) ∷ table) key val (rw (null_key key h) missing)

module _ {S R T : Type 0} (child_executor : Executor S R) (types : List AggregationType)
    (make_key make_val : R → List Value) (having : Option (List Value → List Value → Bool))
    (output : List Value → List Value → T) (walk_order : Table → Table) where
  -- The table of all the rows of the child.
  unfoldable pub build : Table → List R → Outcome Table
  build table [] = ok table
  build table (row ∷ rows) =
      insert_combine types table (make_key row) (make_val row) >>= λ table. build table rows

  unfoldable pub met : Bool → List R → Bool
  met first [] = first
  met first (row ∷ rows) = true

  met-true : (rows : List R) → met true rows ≡ true
  unfolding met
  met-true [] = refl
  met-true (row ∷ rows) = refl

  gather_rows :
      (n : ℕ) {c c' : S} {rows : List R} (table table' : Table) (first : Bool)
      → Yields child_executor c rows c'
      → length rows < n
      → build table rows ≡ ok table'
      → gather child_executor types make_key make_val having output walk_order n
          (record { child = c; aht = table })
          first
        ≡ ok (record { child = c'; aht = table' }, met first rows)
  unfolding gather build met
  gather_rows zero table table' first y b e = absurd (omega arith)
  gather_rows (suc n) {c' = c'} table table' first (finish step) b e = rw step (
      ap (λ table. ok (record { child = c'; aht = table }, first))
        (ok-injective table table' refl e))
  gather_rows (suc n) {c' = c'} table table' first (answer {s' = d} {t = row} {ts = rest} step y) b
        e =
      let (made, inserted, built) =
        bind_ok (insert_combine types table (make_key row) (make_val row))
          (λ table. build table rest) table' e in
      rw (gather, step, inserted)
        (gather_rows n made table' true y (omega arith) built
          ∙ ap (λ b. ok (record { child = c'; aht = table' }, b)) (met-true rest))

  first_answer :
      (n : ℕ) (s s' : AggregationState S)
      → gather child_executor types make_key make_val having output walk_order n s false
        ≡ ok (s', true)
      → next child_executor types make_key make_val having output walk_order n s
        ≡ ok (
          first_group child_executor types make_key make_val having output walk_order
              (walk_order s'.aht),
          s',
        )
  unfolding next
  first_answer n s s' g = rw g refl

  last_answer :
      (n : ℕ) (c c' : S) (table : Table)
      → child_executor.next c ≡ ok (none, c')
      → next child_executor types make_key make_val having output walk_order
          (suc n)
          (record { child = c; aht = table })
        ≡ ok (none, record { child = c'; aht = table })
  unfolding next gather
  last_answer n c c' table step = rw (next, gather, step) refl

  unfoldable pub to_list : {A : Type 0} → Option A → List A
  to_list none = []
  to_list (some a) = a ∷ []

  -- The calls of Next, from the first row of the child on.
  group_rows :
      (n : ℕ) {c c' c'' : S} {row : R} {rows : List R} (table table' : Table)
      → Yields child_executor c (row ∷ rows) c'
      → child_executor.next c' ≡ ok (none, c'')
      → length (row ∷ rows) < suc n
      → build table (row ∷ rows) ≡ ok table'
      → (s' : AggregationState S) × Yields
          (executor child_executor types make_key make_val having output walk_order (suc n))
          (record { child = c; aht = table })
          (to_list (
            first_group child_executor types make_key make_val having output walk_order
              (walk_order table')))
          s'
  unfolding executor to_list met
  group_rows n {c = c} {c' = c'} {c'' = c''} table table' y stop b e =
      let reached : AggregationState S = record { child = c'; aht = table' } in
      let once =
        first_answer (suc n) (record { child = c; aht = table }) reached
          (gather_rows (suc n) table table' false y b e) in
      elim (Option-cases (
        first_group child_executor types make_key make_val having output walk_order
          (walk_order table'))) [
            | inl none_left ↦
                (reached, rw none_left (finish (once ∙ ap (λ o. ok (o, reached)) none_left)))
            | inr (t, group) ↦ (
              record { child = c''; aht = table' },
              rw group (
                  answer (once ∙ ap (λ o. ok (o, reached)) group)
                    (finish (last_answer n c' c'' table' stop))),
            )
          ]

  init_child :
      (c0 c : S) (table : Table)
      → child_executor.init c0 ≡ ok c
      → init child_executor types make_key make_val having output walk_order
          (record { child = c0; aht = table })
        ≡ ok (record { child = c; aht = table })
  unfolding init
  init_child c0 c table e = rw e refl

  length-to_list : (o : Option T) → length (to_list o) < 2
  unfolding to_list
  length-to_list none = omega arith
  length-to_list (some t) = omega arith

  -- A query that is an aggregation, over a child that starts, yields one row or more and then stays at
  -- its end, and whose rows can all be combined, answers the first group of the walk over the table
  -- that passes HAVING, and no other, if there is one at all.
  pub execute-first_group :
      (n k : ℕ) {c0 c c' c'' : S} {row : R} {rows : List R} (table : Table)
      → child_executor.init c0 ≡ ok c
      → Yields child_executor c (row ∷ rows) c'
      → child_executor.next c' ≡ ok (none, c'')
      → length (row ∷ rows) < suc n
      → build [] (row ∷ rows) ≡ ok table
      → execute
          (executor child_executor types make_key make_val having output walk_order (suc n))
          (suc (suc k))
          (record { child = c0; aht = [] })
        ≡ ok (
            to_list (
              first_group child_executor types make_key make_val having output walk_order
                (walk_order table)))
  unfolding executor
  execute-first_group n k {c0 = c0} {c = c} table i y stop b e =
      let all = group_rows n [] table y stop b e in
      let o =
        first_group child_executor types make_key make_val having output walk_order
          (walk_order table) in
      execute-Yields
        (executor child_executor types make_key make_val having output walk_order (suc n))
        (suc (suc k)) (init_child c0 c [] i) all.1 (omega (arith, length-to_list o))
