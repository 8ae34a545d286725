-- ===== src/Execution/SeqScan.antt =====
-- SeqScanExecutor, src/execution/seq_scan_executor.cpp: the tuples of a table that satisfy the predicate,
-- as rows of the output. The predicate of the plan may be null; it and the columns of the output are
-- functions of a tuple.
pub mod Rows
use lab.Common.{
  ℕ, zero, suc, Bool, true, false, if◌then◌else◌, Option, none, some, List, [], ◌∷◌, Outcome, ok,
  undefined, out_of_fuel, ◌>>=◌,
}
use lab.Storage.TablePage.{Tuple}
use lab.Storage.TableHeap.{TableHeap, Transaction, Rid}
use lab.Storage.TableIterator
use lab.Storage.TableIterator.{TableIterator, is_end, begin, get}
use lab.Execution.Executor.{Executor}

unfoldable pub satisfies : Option (Tuple → Bool) → Tuple → Bool
satisfies none tuple = true
satisfies (some predicate) tuple = predicate tuple

-- The state is `iter_`; `end_iter_` does not change.
module _ {T : Type 0} (fetches : ℕ → Bool) (table : TableHeap) (fuel : ℕ)
    (predicate : Option (Tuple → Bool)) (output : Tuple → T) where
  unfoldable pub init : TableIterator → Outcome TableIterator
  init it = begin fetches table fuel it.txn

  -- `iter_->GetRid()` is read behind the test for the end.
  unfoldable pub next : ℕ → TableIterator → Outcome (Option (Rid × T) × TableIterator)
  next zero it = out_of_fuel
  next (suc n) it = elim (it.rid) [
    | none ↦ ok (none, it)
    | some rid ↦ get fetches table it >>= λ tuple.
        TableIterator.next fetches table fuel it >>= λ it.
        if satisfies predicate tuple then ok (some (rid, output tuple), it) else next n it
  ]

  unfoldable pub executor : ℕ → Executor TableIterator (Rid × T)
  executor n = record { init = init; next = next n }

-- The rows of the tuples that satisfy the predicate.
unfoldable pub select :
    {T : Type 0} → Option (Tuple → Bool) → (Tuple → T) → (Rid → Tuple) → List Rid → List (Rid × T)
select predicate output content [] = []
select predicate output content (rid ∷ rids) =
    let rest = select predicate output content rids in
    if satisfies predicate (content rid) then (rid, output (content rid)) ∷ rest else rest
