-- ===== src/Storage/TableHeap.antt =====
-- src/storage/table/table_heap.cpp: the table pages by their ids, which are linked from the first one on,
-- with the part of src/concurrency/transaction_manager.cpp that works off the write set. The buffer pool
-- keeps the contents of a page; which pages it can fetch, and whether it can make a new one, are
-- parameters. The lock manager is Concurrency/LockManager.
pub mod Deletes
pub mod Inserts
pub mod Keeps
mod Tests
use lab.Common.{
  ℕ, zero, suc, ◌+◌, ◌*◌, ◌%◌, ◌^◌, Bool, true, false, Option, none, some, List, [], ◌∷◌, Outcome,
  ok, assert_failed, undefined, out_of_fuel, ◌>>=◌, ltb, if◌then◌else◌, update,
}
use lab.Storage.TablePage
use lab.Storage.TablePage.{TablePage, Tuple}
use lab.Concurrency.LockManager.{System, unlock}

pub record Rid : Type 0 where
  pub page_id : ℕ
  pub slot_num : ℕ

-- RID::Get, by which the lock table knows a RID.
unfoldable pub rid_key : Rid → ℕ
rid_key rid = rid.page_id * 2 ^ 32 + rid.slot_num

-- INSERT, DELETE and UPDATE, the last with the old tuple.
pub data WriteRecord : Type 0 where
  insert delete : Rid → WriteRecord
  updated : Rid → Tuple → WriteRecord

-- The last write comes first.
pub record Transaction : Type 0 where
  pub aborted : Bool
  pub write_set : List WriteRecord

pub record TableHeap : Type 0 where
  pub first_page_id : ℕ
  pub next_page_id : ℕ
  pub pages : ℕ → TablePage

abbrev pub set_page : TableHeap → ℕ → TablePage → TableHeap
set_page h id page = record h { pages = update h.pages id page }

abbrev pub write : Transaction → WriteRecord → Transaction
write txn item = record txn { write_set = item ∷ txn.write_set }

abbrev pub abort_state : Transaction → Transaction
abort_state txn = record txn { aborted = true }

-- The constructor, with the page that NewPage gives. The previous page id is INVALID_LSN, which is
-- INVALID_PAGE_ID too.
unfoldable pub create : TableHeap → TableHeap
create h =
    let id = h.next_page_id in
    record (set_page h id (TablePage.init (h.pages id) id 4096 none)) {
      first_page_id = id;
      next_page_id = id + 1;
    }

module _ (fetches : ℕ → Bool) (makes : Bool) where
  -- The loop of InsertTuple from the page `id` on, with the id of the page that takes the tuple.
  unfoldable pub insert_loop : ℕ → TableHeap → ℕ → Tuple → Outcome (TableHeap × Option Rid)
  insert_loop zero h id tuple = out_of_fuel
  insert_loop (suc fuel) h id tuple = do
    (page, slot) ← TablePage.insert_tuple (h.pages id) tuple
    let h = set_page h id page
    elim slot [
      | some slot_num ↦ ok (h, some (record { page_id = page.table_page_id; slot_num = slot_num }))
      | none ↦ elim page.next_page_id [
        | some next_page_id ↦
            if fetches next_page_id then insert_loop fuel h next_page_id tuple else undefined
        | none ↦ elim makes [
          | false ↦ ok (h, none)
          | true ↦
              let new_id = h.next_page_id in
              let linked = set_page h id (record page { next_page_id = some new_id }) in
              let made =
                set_page linked new_id
                  (TablePage.init (linked.pages new_id) new_id 4096 (some page.table_page_id)) in
              insert_loop fuel (record made { next_page_id = new_id + 1 }) new_id tuple
        ]
      ]
    ]

  unfoldable pub insert_tuple :
      ℕ → TableHeap → Transaction → Tuple → Outcome (TableHeap × Transaction × Option Rid)
  unfolding insert_loop
  insert_tuple fuel h txn tuple =
      if ltb 4096 ((tuple.size + 32) % 2 ^ 32)
      then ok (h, abort_state txn, none)
      else (elim (fetches h.first_page_id) [
        | false ↦ ok (h, abort_state txn, none)
        | true ↦ do
          (h, rid) ← insert_loop fuel h h.first_page_id tuple
          elim rid [
            | none ↦ ok (h, abort_state txn, none)
            | some rid ↦ ok (h, write txn (insert rid), some rid)
          ]
      ])

  -- What the page answers is not looked at.
  unfoldable pub mark_delete : TableHeap → Transaction → Rid → TableHeap × Transaction × Bool
  mark_delete h txn rid =
      if fetches rid.page_id
      then (
        set_page h rid.page_id (TablePage.mark_delete (h.pages rid.page_id) rid.slot_num).0,
        write txn (delete rid),
        true,
      )
      else (h, abort_state txn, false)

  unfoldable pub update_tuple :
      TableHeap → Transaction → Rid → Tuple → Outcome (TableHeap × Transaction × Bool)
  update_tuple h txn rid tuple = elim (fetches rid.page_id) [
    | false ↦ ok (h, abort_state txn, false)
    | true ↦ do
      (page, old) ← TablePage.update_tuple (h.pages rid.page_id) tuple rid.slot_num
      let h = set_page h rid.page_id page
      elim old [
        | none ↦ ok (h, txn, false)
        | some old_tuple ↦
            ok (h, if txn.aborted then txn else write txn (updated rid old_tuple), true)
      ]
  ]

  -- The lock on the RID is given back once the tuple is gone. `t` is the id of the transaction.
  unfoldable pub apply_delete : System → ℕ → TableHeap → Rid → Outcome (TableHeap × System)
  unfolding rid_key
  apply_delete s t h rid =
      if fetches rid.page_id
      then TablePage.apply_delete (h.pages rid.page_id) rid.slot_num
        >>= (λ page. unlock s t (rid_key rid) >>= (λ s. ok (set_page h rid.page_id page, s)))
      else assert_failed

  unfoldable pub rollback_delete : TableHeap → Rid → Outcome TableHeap
  rollback_delete h rid =
      if fetches rid.page_id
      then TablePage.rollback_delete (h.pages rid.page_id) rid.slot_num
        >>= (λ page. ok (set_page h rid.page_id page))
      else assert_failed

  -- Without the page the transaction is aborted.
  unfoldable pub get_tuple : TableHeap → Transaction → Rid → Transaction × Option Tuple
  get_tuple h txn rid =
      if fetches rid.page_id
      then (txn, TablePage.get_tuple (h.pages rid.page_id) rid.slot_num)
      else (abort_state txn, none)

  -- "Perform all deletes before we commit", from the last write back. The state is COMMITTED already, and
  -- the other locks are given back later.
  unfoldable pub commit : System → ℕ → TableHeap → List WriteRecord → Outcome (TableHeap × System)
  unfolding apply_delete
  commit s t h [] = ok (h, s)
  commit s t h (delete rid ∷ items) = apply_delete s t h rid >>= λ r. commit r.1 t r.0 items
  commit s t h (insert rid ∷ items) = commit s t h items
  commit s t h (updated rid old_tuple ∷ items) = commit s t h items

  -- The rollback of the table writes of Abort; the state is ABORTED already, and the other locks are given
  -- back later. An update runs on the aborted transaction, and writes no record.
  unfoldable pub abort : System → ℕ → TableHeap → List WriteRecord → Outcome (TableHeap × System)
  unfolding apply_delete rollback_delete update_tuple
  abort s t h [] = ok (h, s)
  abort s t h (delete rid ∷ items) = rollback_delete h rid >>= λ h. abort s t h items
  abort s t h (insert rid ∷ items) = apply_delete s t h rid >>= λ r. abort r.1 t r.0 items
  abort s t h (updated rid old_tuple ∷ items) =
      update_tuple h (record { aborted = true; write_set = [] }) rid old_tuple >>= λ r.
      abort s t r.0 items
