-- ===== src/Execution/Executor.antt =====
-- src/include/execution/executors/abstract_executor.h, and the loop of ExecutionEngine::Execute in
-- src/include/execution/execution_engine.h.
use lab.Common.{
  ℕ, zero, suc, ◌<◌, ◌≡◌, Option, none, some, List, [], ◌∷◌, ◌++◌, length, ap, sym, ◌∙◌, Outcome,
  ok, assert_failed, deadlock, undefined, out_of_memory, exception, out_of_fuel, ◌>>=◌, arith,
}
use mathlib.Core.List.{append-nil, append_assoc}

pub record Executor (S T : Type 0) : Type 0 where
  pub init : S → Outcome S
  pub next : S → Outcome (Option T × S)

-- Calls of `Next` from the first state answer the rows and then the end, in the last state.
pub data Yields {S T : Type 0} (e : Executor S T) : S → List T → S → Type 0 where
  finish : {s s' : S} → e.next s ≡ ok (none, s') → Yields e s [] s'
  answer :
      {s s' s'' : S} {t : T} {ts : List T}
      → e.next s ≡ ok (some t, s')
      → Yields e s' ts s''
      → Yields e s (t ∷ ts) s''

-- The loop of Execute. It catches an `Exception` and keeps the rows that it has.
unfoldable pub collect : {S T : Type 0} → Executor S T → ℕ → S → List T → Outcome (List T)
collect e zero s rows = out_of_fuel
collect e (suc n) s rows = elim (e.next s) [
  | ok (some t, s') ↦ collect e n s' (rows ++ t ∷ [])
  | ok (none, s') ↦ ok rows
  | exception ↦ ok rows
  | out_of_memory ↦ ok rows
  | assert_failed ↦ assert_failed
  | deadlock ↦ deadlock
  | undefined ↦ undefined
  | out_of_fuel ↦ out_of_fuel
]

unfoldable pub execute : {S T : Type 0} → Executor S T → ℕ → S → Outcome (List T)
execute e fuel s = e.init s >>= λ s. collect e fuel s []

-- The loop ends once it has seen every row, and has them in order.
collect-Yields :
    {S T : Type 0} (e : Executor S T) {s s' : S} {ts : List T} (n : ℕ) (rows : List T)
    → Yields e s ts s'
    → length ts < n
    → collect e n s rows ≡ ok (rows ++ ts)
unfolding collect
collect-Yields e zero rows y h = absurd (omega arith)
collect-Yields e (suc n) rows (finish step) h = rw (collect, step) (ap ok (sym (append-nil rows)))
collect-Yields e (suc n) rows (answer {t = t} {ts = ts} step y) h =
    rw (collect, step)
      (collect-Yields e n (rows ++ t ∷ []) y (omega arith) ∙ ap ok (append_assoc rows (t ∷ []) ts))

pub execute-Yields :
    {S T : Type 0} (e : Executor S T) {s0 s s' : S} {ts : List T} (n : ℕ)
    → e.init s0 ≡ ok s
    → Yields e s ts s'
    → length ts < n
    → execute e n s0 ≡ ok ts
unfolding execute
execute-Yields e n i y h = rw i (collect-Yields e n [] y h)
