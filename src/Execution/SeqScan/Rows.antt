-- ===== src/Execution/SeqScan/Rows.antt =====
-- A query that is a sequential scan, from the pages of the table to its rows.
use lab.Common.{
  ℕ, zero, suc, ◌+◌, ◌<◌, ◌≤◌, ◌≡◌, refl, ◌∙◌, Bool, Option, none, some, List, [], ◌∷◌, length, ok,
  arith, Bool-cases, inl, inr, ◌⊎◌,
}
use lab.Storage.TablePage.{Tuple}
use lab.Storage.TableHeap.{TableHeap, Rid}
use lab.Storage.TableIterator.{TableIterator, is_end, begin, get}
use lab.Storage.TableIterator.Chain.{Linked, rids_of, content}
use lab.Storage.TableIterator.Rows.{Stands, begin-Stands, Stands-end, Stands-row}
use lab.Execution.Executor.{Yields, finish, answer, execute, execute-Yields}
use lab.Execution.SeqScan.{satisfies, init, next, executor, select}

length-select :
    {T : Type 0} (predicate : Option (Tuple → Bool)) (output : Tuple → T) (content : Rid → Tuple)
    (rids : List Rid)
    → length (select predicate output content rids) ≤ length rids
unfolding select
length-select predicate output content [] = omega arith
length-select predicate output content (rid ∷ rids) =
    ground (arith, length-select predicate output content rids)

module _ {T : Type 0} (fetches : ℕ → Bool) (table : TableHeap) (fuel : ℕ)
    (predicate : Option (Tuple → Bool)) (output : Tuple → T) where
  rows : List Rid → List (Rid × T)
  rows rids = select predicate output (content table) rids

  get_row :
      (it : TableIterator) (rid : Rid) → it.rid ≡ some rid → get fetches table it ≡ ok it.tuple
  unfolding get is_end
  get_row it rid e = rw e refl

  Scanned : ℕ → TableIterator → List Rid → Type 0
  Scanned n it rids =
      ((it' : TableIterator) × (next fetches table fuel predicate output n it ≡ ok (none, it'))
        × (rows rids ≡ []))
      ⊎ ((row : Rid × T) × (rest : List Rid) × (it' : TableIterator) × (next fetches table fuel
              predicate output n it
            ≡ ok (some row, it'))
          × (rows rids ≡ row ∷ rows rest)
          × Stands fetches table fuel it' rest
          × (length rest < length rids))

  -- One call of Next: the end, or the first row that is left.
  next_row :
      (n : ℕ) (it : TableIterator) (rids : List Rid)
      → Stands fetches table fuel it rids
      → length rids < n
      → Scanned n it rids
  unfolding Scanned rows next select
  next_row zero it rids s b = absurd (omega arith)
  next_row (suc n) it [] s b = inl (it, simp (next, Stands-end fetches table fuel it s) refl, refl)
  next_row (suc n) it (rid ∷ rids) s b =
      let (e, c, it', step, s') = Stands-row fetches table fuel it rid rids s in
      elim (Bool-cases (satisfies predicate (content table rid))) [
        | inl holds ↦ inr (
          (rid, output (content table rid)),
          rids,
          it',
          rw (next, e, get_row it rid e, step, c, holds) refl,
          rw holds refl,
          s',
          omega arith,
        )
        | inr fails ↦
            let skipped : next fetches table fuel predicate output (suc n) it
                ≡ next fetches table fuel predicate output n it' =
              rw (next, e, get_row it rid e, step, c, fails) refl in
            let same : rows (rid ∷ rids) ≡ rows rids = rw fails refl in
            elim (next_row n it' rids s' (omega arith)) [
              | inl (last, k, r) ↦ inl (last, skipped ∙ k, same ∙ r)
              | inr (row, rest, it'', k, r, s'', less) ↦
                  inr (row, rest, it'', skipped ∙ k, same ∙ r, s'', omega arith)
            ]
      ]

  -- All the calls of Next, with fuel for the RIDs that are left.
  scan_rows :
      (m n : ℕ) (it : TableIterator) (rids : List Rid)
      → Stands fetches table fuel it rids
      → length rids < m
      → length rids < n
      → (it' : TableIterator) × Yields
          (executor fetches table fuel predicate output n)
          it
          (rows rids)
          it'
  unfolding executor Scanned
  scan_rows zero n it rids s a b = absurd (omega arith)
  scan_rows (suc m) n it rids s a b = elim (next_row n it rids s b) [
    | inl (last, k, r) ↦ (last, rw r (finish k))
    | inr (row, rest, it', k, r, s', less) ↦
        let later = scan_rows m n it' rest s' (omega arith) (omega arith) in
        (later.0, rw r (answer k later.1))
  ]

  begin_init :
      (it0 it : TableIterator)
      → begin fetches table fuel it0.txn ≡ ok it
      → init fetches table fuel predicate output it0 ≡ ok it
  unfolding init
  begin_init it0 it e = e

  -- A query that is a sequential scan of a table whose pages are linked from the first one on and can
  -- all be fetched, with more fuel than pages and than tuples, answers the live tuples that satisfy
  -- the predicate, page by page and slot by slot.
  pub execute-select :
      (n : ℕ) (it0 : TableIterator) (ids : List ℕ)
      → Linked fetches table table.first_page_id ids
      → length ids + 1 < fuel
      → length (rids_of table (table.first_page_id ∷ ids)) < n
      → execute (executor fetches table fuel predicate output n) n it0
        ≡ ok (select predicate output (content table) (rids_of table (table.first_page_id ∷ ids)))
  unfolding rows executor
  execute-select n it0 ids l b c =
      let (it, e, s) = begin-Stands fetches table fuel it0.txn l b in
      let all = rids_of table (table.first_page_id ∷ ids) in
      execute-Yields (executor fetches table fuel predicate output n) n (begin_init it0 it e)
        (scan_rows n n it all s c c).1
        (omega (arith, length-select predicate output (content table) all))
