-- ===== src/Storage/TableHeap/Inserts.antt =====
-- InsertTuple of a table heap, src/storage/table/table_heap.cpp, along the linked pages.
use lab.Common.{
  ℕ, zero, suc, ◌+◌, ◌%◌, ◌^◌, ◌<◌, ◌≤◌, ◌≡◌, refl, sym, ap, ◌∙◌, subst, Bool, true, false, Option,
  none, some, List, [], ◌∷◌, length, Outcome, ok, ◌==◌, ==_refl, ltb, arith, Bool-cases, inl, inr,
  ◌⊎◌,
}
use lab.Storage.TablePage
use lab.Storage.TablePage.{
  TablePage, Tuple, free_space_remaining, insert_tuple, init, sum32, place_tuple,
}
use lab.Storage.TablePage.Valid.{IsValid, init-IsValid, bytes_of}
use lab.Storage.TablePage.Insert.{free_space_lem, insert_tuple-Inserted, Inserted-get_tuple}
use lab.Storage.TableHeap
use lab.Storage.TableHeap.{TableHeap, Transaction, Rid, insert, write, set_page, insert_loop}
use lab.Storage.TableIterator.Chain.{Linked, last_page, page, fetched}
use lab.Storage.TableHeap.Keeps.{
  set_page_same, PageKeeps, Keeps, Keeps-trans, set_page-Keeps, Inserted-PageKeeps, with_new_page,
  with_new_page-Keeps,
}

-- The tuple is read back from the slot of the RID, byte for byte.
unfoldable pub Stored : TableHeap → Tuple → Rid → Type 0
Stored h tuple rid =
    (t : Tuple) × (TablePage.get_tuple (h.pages rid.page_id) rid.slot_num ≡ some t)
    × (t.size ≡ tuple.size)
    × (bytes_of t ≡ bytes_of tuple)

unfoldable pub AllValid : TableHeap → List ℕ → Type 0
AllValid h [] = Unit
AllValid h (id ∷ ids) = IsValid (h.pages id) 4096 × AllValid h ids

-- InsertTuple of a page leaves its id and its links.
id_after : TablePage → Outcome (TablePage × Option ℕ) → ℕ
id_after p (ok (q, slot)) = q.table_page_id
id_after p _ = p.table_page_id

insert_tuple-id_after :
    (p : TablePage) (tuple : Tuple) → id_after p (insert_tuple p tuple) ≡ p.table_page_id
unfolding id_after insert_tuple place_tuple
insert_tuple-id_after p tuple = elim (Bool-cases (tuple.size == 0)) [
  | inl e ↦ rw e refl
  | inr e ↦ elim (Bool-cases (ltb (free_space_remaining p) (tuple.size + 8))) [
    | inl k ↦ rw (e, k) refl
    | inr k ↦ rw (e, k) refl
  ]
]

insert_tuple_id :
    (p q : TablePage) (tuple : Tuple) (slot : Option ℕ)
    → insert_tuple p tuple ≡ ok (q, slot)
    → q.table_page_id ≡ p.table_page_id
unfolding id_after
insert_tuple_id p q tuple slot e = ap (id_after p) (sym e) ∙ insert_tuple-id_after p tuple

-- The page takes the tuple, and GetTuple reads it back there.
unfoldable Taken : TablePage → Tuple → Type 0
Taken p tuple =
    (q : TablePage) × (slot : ℕ) × (insert_tuple p tuple ≡ ok (q, some slot))
    × PageKeeps p q
    × (t : Tuple) × (TablePage.get_tuple q slot ≡ some t)
    × (t.size ≡ tuple.size)
    × (bytes_of t ≡ bytes_of tuple)

module _ (fetches : ℕ → Bool) (tuple : Tuple) where
  unfoldable Answers : ℕ → TableHeap → ℕ → Type 0
  Answers n h id =
      (h' : TableHeap) × (rid : Rid) × (insert_loop fetches true n h id tuple ≡ ok (h', some rid))
      × Keeps h h'
      × Stored h' tuple rid

  -- A page that takes the tuple ends the loop.
  takes :
      (n : ℕ) (h : TableHeap) (id : ℕ)
      → (h.pages id).table_page_id ≡ id
      → Taken (h.pages id) tuple
      → Answers (suc n) h id
  unfolding Answers Stored Taken insert_loop TablePage.get_tuple
  takes n h id own (q, slot, e, keeps, t, read, size, bytes) =
      let kept : q.table_page_id ≡ id = insert_tuple_id (h.pages id) q tuple (some slot) e ∙ own in
      (
        set_page h id q,
        record { page_id = q.table_page_id; slot_num = slot },
        rw e refl,
        set_page-Keeps h id q keeps,
        (t, rw (kept, ==_refl id) read, size, bytes),
      )

  -- A page without room leads to the next one.
  goes_on :
      (n : ℕ) (h : TableHeap) (id next_id : ℕ)
      → insert_tuple (h.pages id) tuple ≡ ok (h.pages id, none)
      → (h.pages id).next_page_id ≡ some next_id
      → fetches next_id ≡ true
      → insert_loop fetches true (suc n) h id tuple ≡ insert_loop fetches true n h next_id tuple
  unfolding insert_loop
  goes_on n h id next_id e follows f = rw (e, follows, f, set_page_same h id) refl

  -- A last page without room leads to a new one.
  grows :
      (n : ℕ) (h : TableHeap) (id : ℕ)
      → insert_tuple (h.pages id) tuple ≡ ok (h.pages id, none)
      → (h.pages id).next_page_id ≡ none
      → insert_loop fetches true (suc n) h id tuple
        ≡ insert_loop fetches true n (with_new_page (h.pages id) h id) h.next_page_id tuple
  unfolding insert_loop
  grows n h id e last =
      rw (e, last)
        (ap (λ g. insert_loop fetches true n (with_new_page (h.pages id) g id) g.next_page_id tuple)
          (set_page_same h id))

  module _ (some_bytes : 0 < tuple.size) (small : tuple.size + 32 ≤ 4096) where
    room_takes :
        (p : TablePage) → IsValid p 4096 → tuple.size + 8 ≤ free_space_remaining p → Taken p tuple
    unfolding Taken
    room_takes p v room = elim (insert_tuple-Inserted p 4096 v tuple some_bytes) [
      | inr (full, e) ↦ absurd (omega arith)
      | inl (q, slot, e, done) ↦
          let (t, read, size, bytes) = Inserted-get_tuple p 4096 v tuple q slot done in
          (q, slot, e, Inserted-PageKeeps p v tuple q slot done, t, read, size, bytes)
    ]

    new_page_takes : (p : TablePage) (id : ℕ) (prev : Option ℕ) → Taken (init p id 4096 prev) tuple
    unfolding init Taken
    new_page_takes p id prev =
        let v = init-IsValid p id 4096 prev (omega arith) (omega arith) in
        room_takes (init p id 4096 prev) v
          (omega (arith, free_space_lem (init p id 4096 prev) 4096 v, small))

    new_page-Answers :
        (n : ℕ) (h : TableHeap) (id : ℕ)
        → Answers (suc n) (with_new_page (h.pages id) h id) h.next_page_id
    unfolding init
    new_page-Answers n h id =
        let new_id = h.next_page_id in
        let grown = with_new_page (h.pages id) h id in
        let p = (set_page h id (record (h.pages id) { next_page_id = some new_id })).pages new_id in
        let made : grown.pages new_id ≡ init p new_id 4096 (some (h.pages id).table_page_id) =
          rw (==_refl new_id) refl in
        takes n grown new_id (ap (λ p. p.table_page_id) made) (
          subst (λ p. Taken p tuple) (sym made)
            (new_page_takes p new_id (some (h.pages id).table_page_id)))

    full_page :
        (p : TablePage)
        → ltb (free_space_remaining p) (tuple.size + 8) ≡ true
        → insert_tuple p tuple ≡ ok (p, none)
    unfolding insert_tuple
    full_page p full = ground arith

    room_or_full :
        (p : TablePage) → IsValid p 4096 → Taken p tuple ⊎ (insert_tuple p tuple ≡ ok (p, none))
    unfolding Taken
    room_or_full p v = elim (Bool-cases (ltb (free_space_remaining p) (tuple.size + 8))) [
      | inr room ↦ inl (room_takes p v (ground arith))
      | inl full ↦ inr (full_page p full)
    ]

    -- The loop from any page of the chain on, with fuel for the pages and a new one.
    chain-Answers :
        (n : ℕ) (h : TableHeap) {id : ℕ} {ids : List ℕ}
        → Linked fetches h id ids
        → AllValid h (id ∷ ids)
        → length ids + 1 < n
        → (h.pages h.next_page_id).tuple_count ≡ 0
        → Answers n h id
    unfolding Answers AllValid
    chain-Answers zero h l v b u = absurd (omega arith)
    chain-Answers (suc zero) h l v b u = absurd (omega arith)
    chain-Answers (suc (suc n)) h {id = id} (last_page f t e) v b u =
        elim (room_or_full (h.pages id) v.0) [
          | inl taken ↦ takes (suc n) h id t taken
          | inr full ↦
              let (h', rid, same, keeps, stored) = new_page-Answers n h id in
              (
                h',
                rid,
                grows (suc n) h id full e ∙ same,
                Keeps-trans h (with_new_page (h.pages id) h id) h' (with_new_page-Keeps h id u)
                    keeps,
                stored,
              )
        ]
    chain-Answers (suc (suc n)) h {id = id} (page {next_id = next_id} {ids = ids} f t e l) v b u =
        elim (room_or_full (h.pages id) v.0) [
          | inl taken ↦ takes (suc n) h id t taken
          | inr full ↦
              let (h', rid, same, keeps, stored) =
                chain-Answers (suc n) h {id = next_id} {ids = ids} l v.1 (omega arith) u in
              (
                h',
                rid,
                goes_on (suc n) h id next_id full e (fetched fetches h l) ∙ same,
                keeps,
                stored,
              )
        ]

    -- InsertTuple of a tuple that is not empty and fits in a new page, into a heap whose valid pages
    -- are linked from the first one on and can be fetched, when new pages can be made, the next one
    -- has no slots yet, and there is fuel for each page and a new one, succeeds on some page, old or
    -- new. It adds the INSERT record to the write set, the slot of the RID holds the tuple, byte for
    -- byte, and all slots in use on all pages keep their tuples and marks.
    pub insert_tuple-Stored :
        (h : TableHeap) (ids : List ℕ) (txn : Transaction) (fuel : ℕ)
        → Linked fetches h h.first_page_id ids
        → AllValid h (h.first_page_id ∷ ids)
        → length ids + 1 < fuel
        → (h.pages h.next_page_id).tuple_count ≡ 0
        → (h' : TableHeap) × (rid : Rid) × (TableHeap.insert_tuple fetches true fuel h txn tuple
            ≡ ok (h', write txn (insert rid), some rid))
          × Keeps h h'
          × Stored h' tuple rid
    unfolding TableHeap.insert_tuple Answers
    insert_tuple-Stored h ids txn fuel l v b u =
        let (h', rid, e, keeps, stored) = chain-Answers fuel h l v b u in
        let fits : ltb 4096 ((tuple.size + 32) % 2 ^ 32) ≡ false = ground arith in
        (h', rid, rw (fits, fetched fetches h l, e) refl, keeps, stored)
