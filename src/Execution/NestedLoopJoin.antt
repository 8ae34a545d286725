-- ===== src/Execution/NestedLoopJoin.antt =====
-- NestedLoopJoinExecutor, src/execution/nested_loop_join_executor.cpp. The predicate of the plan may be
-- null; it and the columns of the output are functions of the two rows.
pub mod Rows
use lab.Common.{
  ℕ, zero, suc, ◌+◌, ◌<◌, ◌≡◌, refl, Bool, true, false, if◌then◌else◌, Option, none, some, List, [],
  ◌∷◌, length, Outcome, ok, out_of_fuel, ◌>>=◌, arith, Bool-cases, inl, inr,
}
use lab.Execution.Executor.{Executor, Yields, finish, answer}

pub record JoinState (SL SR : Type 0) : Type 0 where
  pub left_executor : SL
  pub right_executor : SR

-- `predicate == nullptr || predicate->EvaluateJoin(...)`
unfoldable pub matches : {L R : Type 0} → Option (L → R → Bool) → L → R → Bool
matches none l r = true
matches (some p) l r = p l r

module _ {SL SR L R T : Type 0} (left : Executor SL L) (right : Executor SR R)
    (predicate : Option (L → R → Bool)) (output : L → R → T) where
  unfoldable pub init : JoinState SL SR → Outcome (JoinState SL SR)
  init s = left.init s.left_executor >>= λ l.
      right.init s.right_executor >>= λ r. ok (record { left_executor = l; right_executor = r })

  -- The inner loop: the first row of the right child, from where it stands, that goes with the row l.
  unfoldable pub seek : ℕ → L → SR → Outcome (Option T × SR)
  seek zero l s = out_of_fuel
  seek (suc n) l s = right.next s >>= λ r. elim (r.0) [
    | none ↦ ok (none, r.1)
    | some t ↦ if matches predicate l t then ok (some (output l t), r.1) else seek n l (r.1)
  ]

  -- The outer loop, whose row of the left child is a local of the call.
  unfoldable pub next : ℕ → JoinState SL SR → Outcome (Option T × JoinState SL SR)
  next zero s = out_of_fuel
  next (suc n) s = left.next s.left_executor >>= λ l. elim (l.0) [
    | none ↦ ok (none, record { left_executor = l.1; right_executor = s.right_executor })
    | some t ↦ seek n t s.right_executor >>= λ r. elim (r.0) [
      | none ↦ next n (record { left_executor = l.1; right_executor = r.1 })
      | some u ↦ ok (some u, record { left_executor = l.1; right_executor = r.1 })
    ]
  ]

  unfoldable pub executor : ℕ → Executor (JoinState SL SR) T
  executor fuel = record { init = init; next = next fuel }

-- The rows that the executor finds: each row of the left child is joined with the first match among the
-- rows of the right child that no earlier row has passed over.
unfoldable pub drop_to_match : {L R : Type 0} → Option (L → R → Bool) → L → List R → List R
drop_to_match predicate l [] = []
drop_to_match predicate l (r ∷ rs) =
    let rest = drop_to_match predicate l rs in if matches predicate l r then r ∷ rs else rest

unfoldable pub joined :
    {L R T : Type 0} → Option (L → R → Bool) → (L → R → T) → List L → List R → List T
joined predicate output [] rs = []
joined predicate output (l ∷ ls) rs = elim (drop_to_match predicate l rs) [
  | [] ↦ []
  | r ∷ rest ↦ output l r ∷ joined predicate output ls rest
]
