-- ===== src/Storage/TableHeap/Tests.antt =====
-- A table heap on concrete inputs.
use lab.Common.{
  ◌≡◌, refl, true, false, none, some, [], ◌∷◌, ok, assert_failed, arith, if◌then◌else◌, ◌==◌,
  undefined, lookup,
}
use lab.Common
use lab.Concurrency.Transaction.{repeatable_read, start}
use lab.Concurrency.LockManager.{System, queue_of, lock_exclusive}
use lab.Concurrency.LockManager.Unlock.{has_lock_request}
use lab.Storage.TablePage.{TablePage, Tuple, is_deleted}
use lab.Storage.TablePage.Valid.{IsValid}
use lab.Storage.TableHeap
use lab.Storage.TableIterator.Chain.{last_page}
use lab.Storage.TableHeap.Keeps.{Keeps}
use lab.Storage.TableHeap.Inserts.{AllValid, Stored, insert_tuple-Stored}
use lab.Storage.TableHeap.{
  Rid, rid_key, Transaction, TableHeap, delete, insert, write, abort, commit,
}
use lab.Storage.TableHeap.Deletes.{first, second, abort-mark_delete, commit-mark_delete}

-- A page with one tuple of six bytes.
abbrev one_tuple : TablePage
one_tuple = record {
  table_page_id = 3;
  prev_page_id = none;
  next_page_id = none;
  free_space_pointer = 4090;
  tuple_count = 1;
  offsets = λ i. 4090;
  sizes = λ i. 6;
  bytes = λ i. 7;
}

one_tuple-IsValid : IsValid one_tuple 4096
one_tuple-IsValid = record {
  header = omega arith;
  in_page = omega arith;
  small = omega arith;
  long = λ i u. ground arith;
  behind = λ i u. ground arith;
  before = λ i u. ground arith;
  apart = λ i j u w d. absurd (d (omega (arith, u.in_count, w.in_count)));
}

abbrev heap : TableHeap
heap = record { first_page_id = 3; next_page_id = 4; pages = λ id. one_tuple }

abbrev txn : Transaction
txn = record { aborted = false; write_set = [] }

abbrev rid : Rid
rid = record { page_id = 3; slot_num = 0 }

live : is_deleted 6 ≡ false
unfolding is_deleted
live = refl

-- The page of `one_tuple` without room, for a tuple of ten bytes on a new page.
abbrev full : TablePage
full = record one_tuple { free_space_pointer = 32; offsets = λ i. 32; sizes = λ i. 4064 }

full-IsValid : IsValid full 4096
full-IsValid = record {
  header = omega arith;
  in_page = omega arith;
  small = omega arith;
  long = λ i u. ground arith;
  behind = λ i u. ground arith;
  before = λ i u. ground arith;
  apart = λ i j u w d. absurd (d (omega (arith, u.in_count, w.in_count)));
}

abbrev ten_bytes : Tuple
ten_bytes = record { size = 10; content = λ i. i }

abbrev full_heap : TableHeap
full_heap = record {
  first_page_id = 3;
  next_page_id = 4;
  pages = λ id. if id == 3 then full else record full { tuple_count = 0 };
}

insert_tuple-Stored_example :
    (h' : TableHeap) × (rid : Rid) × (TableHeap.insert_tuple
        (λ id. true)
        true
        2
        full_heap
        txn
        ten_bytes
      ≡ ok (h', write txn (insert rid), some rid))
    × Keeps full_heap h'
    × Stored h' ten_bytes rid
unfolding AllValid
insert_tuple-Stored_example =
    insert_tuple-Stored (λ id. true) ten_bytes (omega arith) (omega arith) full_heap [] txn 2
      (last_page {id = 3} refl refl refl) (full-IsValid, tt) (omega arith) refl

-- Transaction 1 has an exclusive lock on the tuple.
abbrev locked : System
locked =
    (lock_exclusive (record { lock_table = []; txns = λ t. start repeatable_read }) 1
      (rid_key rid)).0

abort-mark_delete_example :
    ((first (λ id. true) heap txn rid refl).2 ≡ true)
    × ((first (λ id. true) heap txn rid refl).1.write_set ≡ delete rid ∷ [])
    × (abort (λ id. true) true locked 1 (first (λ id. true) heap txn rid refl).0 (delete rid ∷ [])
        ≡ ok (heap, locked))
abort-mark_delete_example =
    abort-mark_delete (λ id. true) heap txn rid refl locked 1 (omega arith) live

commit-mark_delete_example :
    ((first (λ id. true) heap txn rid refl).2 ≡ true)
    × ((second (λ id. true) heap txn rid refl).2 ≡ true)
    × (commit
          (λ id. true)
          true
          locked
          1
          (second (λ id. true) heap txn rid refl).0
          (second (λ id. true) heap txn rid refl).1.write_set
        ≡ (if has_lock_request locked 1 (rid_key rid) then assert_failed else undefined))
commit-mark_delete_example =
    commit-mark_delete (λ id. true) heap txn rid refl 4096 one_tuple-IsValid (omega arith) live
      locked 1

-- With the lock the commit fails an assertion, and without it, it is undefined.
both_cases :
    (has_lock_request locked 1 (rid_key rid) ≡ true)
    × (has_lock_request locked 2 (rid_key rid) ≡ false)
unfolding has_lock_request rid_key lock_exclusive start queue_of lookup Common.insert
    lab.Concurrency.LockQueue.has_request
both_cases = (refl, refl)
