-- ===== src/Storage/TableIterator.antt =====
-- src/storage/table/table_iterator.cpp, with Begin and End of src/storage/table/table_heap.cpp. The RID of
-- a `Tuple` is kept beside it; no RID is the one with INVALID_PAGE_ID, which `End` has. `FetchPage`
-- answers the pages of `fetches`; a call through the null page that it answers otherwise is undefined.
-- The pins and latches of the pages are left out. An iterator at its end is not advanced.
pub mod Chain
pub mod Rows
use lab.Common.{
  ℕ, zero, suc, Bool, true, false, Option, none, some, Outcome, ok, assert_failed, undefined,
  out_of_fuel, ◌>>=◌, ◌==◌, if◌then◌else◌, is_some,
}
use lab.Storage.TablePage
use lab.Storage.TablePage.{TablePage, Tuple}
use lab.Storage.TableHeap
use lab.Storage.TableHeap.{TableHeap, Transaction, Rid}

pub record TableIterator : Type 0 where
  pub rid : Option Rid
  pub tuple : Tuple
  pub txn : Transaction

abbrev pub rid_on : TablePage → ℕ → Rid
rid_on page slot_num = record { page_id = page.table_page_id; slot_num = slot_num }

-- A `Tuple` that no tuple of a page was read into.
abbrev pub blank : Tuple
blank = record { size = 0; content = λ i. 0 }

unfoldable pub loaded : Rid → Tuple → Transaction × Option Tuple → TableIterator
loaded rid tuple (txn, none) = record { rid = some rid; tuple = tuple; txn = txn }
loaded rid tuple (txn, some found) = record { rid = some rid; tuple = found; txn = txn }

module _ (fetches : ℕ → Bool) (h : TableHeap) where
  -- `table_heap_->GetTuple(tuple_->rid_, tuple_, txn_)`, which leaves the tuple as it is when it fails.
  unfoldable pub load : Rid → Tuple → Transaction → TableIterator
  load rid tuple txn = loaded rid tuple (TableHeap.get_tuple fetches false h txn rid)

  unfoldable pub make : Option Rid → Transaction → TableIterator
  make none txn = record { rid = none; tuple = blank; txn = txn }
  make (some rid) txn = load rid blank txn

  -- The loop of TableHeap::Begin from a page on.
  unfoldable pub begin_loop : ℕ → Option ℕ → Outcome (Option Rid)
  begin_loop zero page_id = out_of_fuel
  begin_loop (suc n) none = ok none
  begin_loop (suc n) (some id) =
      let rest = begin_loop n (h.pages id).next_page_id in
      if fetches id
      then elim (TablePage.get_first_tuple_rid (h.pages id)) [
        | some slot ↦ ok (some (rid_on (h.pages id) slot))
        | none ↦ rest
      ]
      else undefined

  unfoldable pub begin : ℕ → Transaction → Outcome TableIterator
  begin fuel txn = begin_loop fuel (some h.first_page_id) >>= λ rid. ok (make rid txn)

  unfoldable pub is_end : TableIterator → Bool
  is_end it = elim (it.rid) [ none ↦ true | some rid ↦ false ]

  unfoldable pub get : TableIterator → Outcome Tuple
  get it = if is_end it then assert_failed else ok it.tuple

  -- The loop of operator++ over the pages behind `cur_page`.
  unfoldable pub advance : ℕ → TablePage → Outcome (Option Rid)
  advance zero cur_page = out_of_fuel
  advance (suc n) cur_page = elim (cur_page.next_page_id) [
    | none ↦ ok none
    | some id ↦
        if fetches id
        then elim (TablePage.get_first_tuple_rid (h.pages id)) [
          | some slot ↦ ok (some (rid_on (h.pages id) slot))
          | none ↦ advance n (h.pages id)
        ]
        else undefined
  ]

  -- The RID behind `rid`, on its page or on a later one.
  unfoldable pub next_rid : ℕ → Rid → Outcome (Option Rid)
  next_rid fuel rid =
      let cur_page = h.pages rid.page_id in
      if fetches rid.page_id
      then (if cur_page.table_page_id == rid.page_id
          then elim (TablePage.get_next_tuple_rid cur_page rid.slot_num) [
            | some slot ↦ ok (some (rid_on cur_page slot))
            | none ↦ advance fuel cur_page
          ]
          else assert_failed)
      else undefined

  -- The tuple stays as it is at the end.
  unfoldable pub moved : TableIterator → Option Rid → TableIterator
  moved it none = record { rid = none; tuple = it.tuple; txn = it.txn }
  moved it (some rid) = load rid it.tuple it.txn

  unfoldable pub next : ℕ → TableIterator → Outcome TableIterator
  next fuel it = elim (it.rid) [
    | none ↦ undefined
    | some rid ↦ next_rid fuel rid >>= λ following. ok (moved it following)
  ]
