-- ===== src/Storage/TableHeap/Deletes.antt =====
-- MarkDelete against the rollback and the commit of a transaction (src/storage/table/table_heap.cpp and
-- src/concurrency/transaction_manager.cpp).
use lab.Common.{
  ℕ, ◌<◌, ◌≡◌, refl, ap, ◌∙◌, arith, Bool, true, false, List, [], ◌∷◌, ok, assert_failed, ◌>>=◌,
  update, undefined, inl, inr, if◌then◌else◌,
}
use lab.Concurrency.LockManager.{System, unlock}
use lab.Concurrency.LockManager.Unlock.{has_lock_request, unlock-cases}
use lab.Storage.TablePage
use lab.Storage.TablePage.{TablePage, is_deleted, set_deleted_flag, shift_offsets, deleted_size}
use lab.Storage.TablePage.Valid.{IsValid, IsUsed, len}
use lab.Storage.TablePage.Delete.{apply_delete-KeepsOthers, rollback_delete-mark_delete}
use lab.Storage.TableHeap.{
  Rid, rid_key, WriteRecord, Transaction, TableHeap, delete, set_page, mark_delete, rollback_delete,
  apply_delete, commit, abort,
}

module _ (fetches : ℕ → Bool) (h : TableHeap) (txn : Transaction) (rid : Rid)
    (there : fetches rid.page_id ≡ true) where
  abbrev page : TablePage
  page = h.pages rid.page_id

  -- The transaction after the one and after the other MarkDelete.
  abbrev pub first : TableHeap × Transaction × Bool
  first = mark_delete fetches true h txn rid

  abbrev pub second : TableHeap × Transaction × Bool
  second = mark_delete fetches true first.0 first.1 rid

  mark_step :
      (g : TableHeap) (x : Transaction)
      → mark_delete fetches true g x rid ≡ (
        set_page g rid.page_id (TablePage.mark_delete (g.pages rid.page_id) rid.slot_num).0,
        record x { write_set = delete rid ∷ x.write_set },
        true,
      )
  unfolding mark_delete
  mark_step g x = rw there refl

  first_lem : first ≡ (
    set_page h rid.page_id (TablePage.mark_delete page rid.slot_num).0,
    record txn { write_set = delete rid ∷ txn.write_set },
    true,
  )
  first_lem = mark_step h txn

  stands : (g : TableHeap) (p : TablePage) → (set_page g rid.page_id p).pages rid.page_id ≡ p
  stands g p = ground arith

  put_back : (p : TablePage) → set_page (set_page h rid.page_id p) rid.page_id page ≡ h
  put_back p = λ i. record h { pages = λ j. same j i }
    where
      same : (j : ℕ) → (set_page (set_page h rid.page_id p) rid.page_id page).pages j ≡ h.pages j
      same j = ground arith

  rollback_step :
      (g : TableHeap) (p : TablePage)
      → TablePage.rollback_delete (g.pages rid.page_id) rid.slot_num ≡ ok p
      → rollback_delete fetches true g rid ≡ ok (set_page g rid.page_id p)
  unfolding rollback_delete
  rollback_step g p e = rw (there, e) refl

  -- MarkDelete of a tuple that is not deleted, on a page that can be fetched, and the rollback of this
  -- one write by Abort, bring back the table heap as it was, and leave the lock manager alone.
  pub abort-mark_delete :
      (s : System) (t : ℕ)
      → rid.slot_num < page.tuple_count
      → is_deleted (page.sizes rid.slot_num) ≡ false
      → (first.2 ≡ true)
        × (first.1.write_set ≡ delete rid ∷ txn.write_set)
        × (abort fetches true s t first.0 (delete rid ∷ []) ≡ ok (h, s))
  unfolding mark_delete rollback_delete abort
  abort-mark_delete s t in_count live =
      let (q, marked, hidden, back) = rollback_delete-mark_delete page rid.slot_num in_count live in
      (
        ap (λ r. r.2) first_lem,
        ap (λ r. r.1.write_set) first_lem,
        ap (λ g. abort fetches true s t g (delete rid ∷ [])) (ap (λ r. r.0) first_lem)
            ∙ ap (λ o. o >>= (λ g. abort fetches true s t g []))
                (rollback_step (set_page h rid.page_id (TablePage.mark_delete page rid.slot_num).0)
                  page
                  (ap (λ p. TablePage.rollback_delete p rid.slot_num)
                      (stands h (TablePage.mark_delete page rid.slot_num).0 ∙ ap (λ x. x.0) marked)
                    ∙ back))
            ∙ ap (λ g. ok (g, s)) (put_back (TablePage.mark_delete page rid.slot_num).0),
      )

  -- ApplyDelete on a page that refuses it, and on one that does not.
  apply_refused :
      (s : System) (t : ℕ) (g : TableHeap) (p : TablePage)
      → g.pages rid.page_id ≡ p
      → TablePage.apply_delete p rid.slot_num ≡ assert_failed
      → apply_delete fetches true s t g rid ≡ assert_failed
  unfolding apply_delete
  apply_refused s t g p e f = rw (there, e, f) refl

  apply_done :
      (s : System) (t : ℕ) (g : TableHeap) (p q : TablePage)
      → g.pages rid.page_id ≡ p
      → TablePage.apply_delete p rid.slot_num ≡ ok q
      → apply_delete fetches true s t g rid
        ≡ unlock s t (rid_key rid) >>= (λ s'. ok (set_page g rid.page_id q, s'))
  unfolding apply_delete
  apply_done s t g p q e f = rw (there, e, f) refl

  emptied : (p q : TablePage) (slot : ℕ) → TablePage.apply_delete p slot ≡ ok q → q.offsets slot ≡ 0
  unfolding TablePage.apply_delete shift_offsets
  emptied p q slot e = ground (arith, e)

  -- A slot that ApplyDelete has emptied fails an assertion of ApplyDelete.
  fails :
      (q : TablePage) (slot : ℕ)
      → q.offsets slot ≡ 0
      → 0 < q.free_space_pointer
      → TablePage.apply_delete q slot ≡ assert_failed
  unfolding TablePage.apply_delete
  fails q slot e pos = ground arith

  module _ (page_size : ℕ) (v : IsValid page page_size) (in_count : rid.slot_num < page.tuple_count)
      (live : is_deleted (page.sizes rid.slot_num) ≡ false) where
    abbrev marked : TablePage
    marked = (TablePage.mark_delete page rid.slot_num).0

    flagged :
        (marked.tuple_count ≡ page.tuple_count)
        × (marked.offsets ≡ page.offsets)
        × (marked.free_space_pointer ≡ page.free_space_pointer)
        × (marked.sizes
            ≡ update page.sizes rid.slot_num (set_deleted_flag (page.sizes rid.slot_num)))
    unfolding TablePage.mark_delete
    flagged = (ground arith, ground arith, ground arith, ground arith)

    same_len : (i : ℕ) → len marked i ≡ len page i
    unfolding set_deleted_flag
    same_len i = ground (arith, ap (λ f. f i) flagged.3)

    slot_before : (i : ℕ) → IsUsed marked i → IsUsed page i
    unfolding is_deleted
    slot_before i u = record {
      in_count = omega (arith, u.in_count, flagged.0);
      not_empty = λ e. u.not_empty (ground (arith, ap (λ f. f i) flagged.3, live));
    }

    slot-IsUsed : IsUsed marked rid.slot_num
    unfolding set_deleted_flag is_deleted
    slot-IsUsed = record {
      in_count = omega (arith, flagged.0, in_count);
      not_empty = λ e. ground (arith, ap (λ f. f rid.slot_num) flagged.3, live);
    }

    at : (i : ℕ) → marked.offsets i ≡ page.offsets i
    at i = ap (λ f. f i) flagged.1

    marked-IsValid : IsValid marked page_size
    marked-IsValid = record {
      header = omega (arith, flagged.0, flagged.2, v.header);
      in_page = omega (arith, flagged.2, v.in_page);
      small = v.small;
      long = λ i u. omega (arith, same_len i, v.long i (slot_before i u));
      behind = λ i u. omega (arith, at i, flagged.2, v.behind i (slot_before i u));
      before = λ i u. omega (arith, at i, same_len i, v.before i (slot_before i u));
      apart = λ i j u w d. ground (
        arith,
        at i,
        at j,
        same_len i,
        same_len j,
        v.apart i j (slot_before i u) (slot_before j w) d,
      );
    }

    marked_again : TablePage.mark_delete marked rid.slot_num ≡ (marked, false)
    unfolding TablePage.mark_delete is_deleted set_deleted_flag
    marked_again = ground arith

    -- Two deletes of a slot in use are one too many.
    commit_twice :
        (s : System) (t : ℕ) (g : TableHeap) (items : List WriteRecord)
        → g.pages rid.page_id ≡ marked
        → commit fetches true s t g (delete rid ∷ delete rid ∷ items)
          ≡ (if has_lock_request s t (rid_key rid) then assert_failed else undefined)
    unfolding commit
    commit_twice s t g items e =
        let (q, done, valid, gone, freed, keeps) =
          apply_delete-KeepsOthers marked page_size marked-IsValid rid.slot_num slot-IsUsed in
        let once = apply_done s t g marked q e done in
        elim (unlock-cases s t (rid_key rid)) [
          | inl (none_there, u) ↦ rw (once, u, none_there) refl
          | inr (s', there', u) ↦
              rw (once, u, there')
                (ap (λ o. o >>= λ r. commit fetches true r.1 t r.0 items)
                  (apply_refused s' t (set_page g rid.page_id q) q (stands g q) (
                    fails q rid.slot_num (emptied marked q rid.slot_num done)
                      (omega (arith, valid.header)))))
        ]

    second_lem : second ≡ (
      set_page first.0 rid.page_id marked,
      record txn { write_set = delete rid ∷ delete rid ∷ txn.write_set },
      true,
    )
    second_lem =
        let held : first.0.pages rid.page_id ≡ marked =
          ap (λ r. r.0.pages rid.page_id) first_lem ∙ stands h marked in
        let kept : (TablePage.mark_delete (first.0.pages rid.page_id) rid.slot_num).0 ≡ marked =
          ap (λ p. (TablePage.mark_delete p rid.slot_num).0) held ∙ ap (λ r. r.0) marked_again in
        let txn_lem : first.1 ≡ record txn { write_set = delete rid ∷ txn.write_set } =
          ap (λ r. r.1) first_lem in
        mark_step first.0 first.1 ∙ (λ i. (
          set_page first.0 rid.page_id (kept i),
          record (txn_lem i) { write_set = delete rid ∷ (txn_lem i).write_set },
          true,
        ))

    -- A transaction that marks a tuple, which is not deleted so far, of a valid page that can be
    -- fetched as deleted, twice, is told both times that it did. Its Commit, whatever it wrote before,
    -- then fails an assertion if the transaction has a request in the lock queue of the RID, and is
    -- undefined, at the Unlock of the first ApplyDelete, if it has none.
    pub commit-mark_delete :
        (s : System) (t : ℕ)
        → (first.2 ≡ true)
          × (second.2 ≡ true)
          × (commit fetches true s t second.0 second.1.write_set
              ≡ (if has_lock_request s t (rid_key rid) then assert_failed else undefined))
    commit-mark_delete s t = (
      ap (λ r. r.2) first_lem,
      ap (λ r. r.2) second_lem,
      ap (λ r. commit fetches true s t r.0 r.1.write_set) second_lem
          ∙ commit_twice s t (set_page first.0 rid.page_id marked) txn.write_set
              (stands first.0 marked),
    )
