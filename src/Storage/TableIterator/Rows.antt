-- ===== src/Storage/TableIterator/Rows.antt =====
-- A table iterator meets the live tuples of the linked pages, page by page and slot by slot.
use lab.Common.{
  ℕ, ◌+◌, ◌<◌, ◌≡◌, refl, sym, ap, subst, Bool, false, Option, none, some, List, [], ◌∷◌, length,
  ok, leb, arith,
}
use lab.Storage.TablePage
use lab.Storage.TablePage.{TablePage, Tuple, is_deleted, next_live, copy_out}
use lab.Storage.TableHeap
use lab.Storage.TableHeap.{TableHeap, Transaction, Rid}
use lab.Storage.TableIterator.{TableIterator, load, loaded, moved, make, begin, next, blank}
use lab.Storage.TableIterator.Chain.{
  Linked, rids_of, slot_rid, content, fetched, At, at_end, at_row, Reached, begin_loop-At, At-nil,
  At-cons,
}

module _ (fetches : ℕ → Bool) (h : TableHeap) (fuel : ℕ) where
  -- An iterator with the RIDs from its own on, whose tuple is the one of its own RID.
  unfoldable pub Stands : TableIterator → List Rid → Type 0
  Stands it rids =
      At fetches h fuel it.rid rids
      × (elim (it.rid) [ none ↦ Unit | some rid ↦ it.tuple ≡ content h rid ])

  get_tuple_row :
      {id j : ℕ} {ids : List ℕ} (txn : Transaction)
      → Linked fetches h id ids
      → j < (h.pages id).tuple_count
      → is_deleted ((h.pages id).sizes j) ≡ false
      → TableHeap.get_tuple fetches false h txn (slot_rid id j)
        ≡ (txn, some (content h (slot_rid id j)))
  unfolding TableHeap.get_tuple TablePage.get_tuple content
  get_tuple_row {id = id} {j = j} txn l b live =
      let inside : leb (h.pages id).tuple_count j ≡ false = ground arith in
      rw (TableHeap.get_tuple, fetched fetches h l, TablePage.get_tuple, inside, live) refl

  load_row :
      {id j : ℕ} {ids : List ℕ} (tuple : Tuple) (txn : Transaction)
      → Linked fetches h id ids
      → j < (h.pages id).tuple_count
      → is_deleted ((h.pages id).sizes j) ≡ false
      → load fetches h (slot_rid id j) tuple txn
        ≡ record { rid = some (slot_rid id j); tuple = content h (slot_rid id j); txn = txn }
  unfolding load loaded
  load_row {id = id} {j = j} tuple txn l b live =
      ap (loaded (slot_rid id j) tuple) (get_tuple_row txn l b live)

  row-Stands :
      (rid : Rid) (txn : Transaction) (rids : List Rid)
      → At fetches h fuel (some rid) rids
      → Stands (record { rid = some rid; tuple = content h rid; txn = txn }) rids
  unfolding Stands
  row-Stands rid txn rids a = (a, refl)

  moved-Stands :
      (it : TableIterator) (following : Option Rid) {rids : List Rid}
      → At fetches h fuel following rids
      → Stands (moved fetches h it following) rids
  unfolding moved Stands
  moved-Stands it following at_end = (at_end, tt)
  moved-Stands it following {rids = rids} (at_row l s b live) =
      subst (λ it. Stands it rids) (sym (load_row it.tuple it.txn l b live))
        (row-Stands _ it.txn rids (at_row l s b live))

  make-Stands :
      (rid : Option Rid) (txn : Transaction) {rids : List Rid}
      → At fetches h fuel rid rids
      → Stands (make fetches h rid txn) rids
  unfolding make Stands
  make-Stands rid txn at_end = (at_end, tt)
  make-Stands rid txn {rids = rids} (at_row l s b live) =
      subst (λ it. Stands it rids) (sym (load_row blank txn l b live))
        (row-Stands _ txn rids (at_row l s b live))

  -- Begin stands before all the rows of the linked pages.
  pub begin-Stands :
      (txn : Transaction) {ids : List ℕ}
      → Linked fetches h h.first_page_id ids
      → length ids + 1 < fuel
      → (it : TableIterator) × (begin fetches h fuel txn ≡ ok it)
        × Stands it (rids_of h (h.first_page_id ∷ ids))
  unfolding begin Reached rids_of
  begin-Stands txn l b =
      let r = begin_loop-At fetches h fuel fuel l b (omega arith) in
      (make fetches h (r.0) txn, rw r.1 refl, make-Stands (r.0) txn r.2)

  -- At fetches h fuel the end there are no rows left, and before it operator++ passes over one.
  pub Stands-end : (it : TableIterator) → Stands it [] → it.rid ≡ none
  unfolding Stands
  Stands-end it (a, c) = At-nil fetches h fuel it.rid a

  pub Stands-row :
      (it : TableIterator) (rid : Rid) (rids : List Rid)
      → Stands it (rid ∷ rids)
      → (it.rid ≡ some rid)
        × (it.tuple ≡ content h rid)
        × (it' : TableIterator) × (next fetches h fuel it ≡ ok it')
        × Stands it' rids
  unfolding Stands next moved
  Stands-row it rid rids (a, c) =
      let (e, following, step, rest) = At-cons fetches h fuel it.rid rid rids a in
      (
        e,
        subst (λ r. elim r [ none ↦ Unit | some rid ↦ it.tuple ≡ content h rid ]) e c,
        moved fetches h it following,
        rw (next, e, step) refl,
        moved-Stands it following rest,
      )
