-- ===== src/Storage/TableIterator/Chain.antt =====
-- The live tuples of linked table pages, and the search for the next one in TableHeap::Begin and
-- TableIterator::operator++.
use lab.Common.{
  ℕ, zero, suc, ◌+◌, ◌-◌, ◌<◌, ◌≤◌, ◌≡◌, refl, ap, ◌∙◌, Bool, true, false, Option, none, some, List,
  [], ◌∷◌, ◌++◌, length, map, ok, ◌==◌, arith, Option-cases, inl, inr, ◌⊎◌, ==_refl,
}
use lab.Storage.TablePage
use lab.Storage.TablePage.{TablePage, Tuple, is_deleted, next_live, copy_out}
use lab.Storage.TablePage.Scan.{live_slots, next_live_lem, next_live-live}
use lab.Storage.TableHeap.{TableHeap, Rid}
use lab.Storage.TableIterator.{rid_on, begin_loop, advance, next_rid}

minus_zero : (n : ℕ) → n ≡ n - 0
minus_zero n = omega arith

abbrev pub slot_rid : ℕ → ℕ → Rid
slot_rid id slot_num = record { page_id = id; slot_num = slot_num }

module _ (h : TableHeap) where
  abbrev pub rids_behind : ℕ → ℕ → List Rid
  rids_behind id i =
      map (slot_rid id) (live_slots (h.pages id).sizes i ((h.pages id).tuple_count - i))

  -- The RIDs of the live tuples of the pages.
  unfoldable pub rids_of : List ℕ → List Rid
  rids_of [] = []
  rids_of (id ∷ ids) = rids_behind id 0 ++ rids_of ids

  -- What the slot of a RID holds.
  unfoldable pub content : Rid → Tuple
  content rid = let p = h.pages rid.page_id in copy_out p rid.slot_num (p.sizes rid.slot_num)

module _ (fetches : ℕ → Bool) (h : TableHeap) where
  -- The pages `ids` follow the page `id`; each can be fetched and has its own id in its header.
  pub data Linked : ℕ → List ℕ → Type 0 where
    last_page :
        {id : ℕ}
        → fetches id ≡ true
        → (h.pages id).table_page_id ≡ id
        → (h.pages id).next_page_id ≡ none
        → Linked id []
    page :
        {id next_id : ℕ} {ids : List ℕ}
        → fetches id ≡ true
        → (h.pages id).table_page_id ≡ id
        → (h.pages id).next_page_id ≡ some next_id
        → Linked next_id ids
        → Linked id (next_id ∷ ids)

  own_id : {id : ℕ} {ids : List ℕ} → Linked id ids → (h.pages id).table_page_id ≡ id
  own_id (last_page f t e) = t
  own_id (page f t e l) = t

  own_page : (id : ℕ) {ids : List ℕ} → Linked id ids → ((h.pages id).table_page_id == id) ≡ true
  own_page id l = rw (own_id l) (==_refl id)

  pub fetched : {id : ℕ} {ids : List ℕ} → Linked id ids → fetches id ≡ true
  fetched (last_page f t e) = f
  fetched (page f t e l) = f

module _ (fetches : ℕ → Bool) (h : TableHeap) (fuel : ℕ) where
  -- The RID of an iterator with the RIDs from there on, on fewer pages than there is fuel.
  pub data At : Option Rid → List Rid → Type 0 where
    at_end : At none []
    at_row :
        {id j : ℕ} {ids : List ℕ}
        → Linked fetches h id ids
        → length ids < fuel
        → j < (h.pages id).tuple_count
        → is_deleted ((h.pages id).sizes j) ≡ false
        → At (some (slot_rid id j)) (slot_rid id j ∷ (rids_behind h id (j + 1) ++ rids_of h ids))

  -- The search of a page from its slot i on: nothing, and no RID behind it there, or the first RID.
  Searched : ℕ → ℕ → List ℕ → Option ℕ → Type 0
  Searched id i ids slot =
      ((slot ≡ none) × (rids_behind h id i ++ rids_of h ids ≡ rids_of h ids))
      ⊎ ((j : ℕ) × (slot ≡ some j)
          × At (some (rid_on (h.pages id) j)) (rids_behind h id i ++ rids_of h ids))

  search :
      {id : ℕ} {ids : List ℕ} (i : ℕ)
      → Linked fetches h id ids
      → length ids < fuel
      → i ≤ (h.pages id).tuple_count
      → Searched id i ids (next_live (h.pages id).sizes i ((h.pages id).tuple_count - i))
  unfolding Searched
  search {id = id} {ids = ids} i l s le =
      let p = h.pages id in
      elim (next_live_lem p.sizes i (p.tuple_count - i)) [
        | inl (e, f) ↦ inl (e, ap (λ js. map (slot_rid id) js ++ rids_of h ids) f)
        | inr (j, e, a, b, f) ↦
            let same : i + (p.tuple_count - i) - (j + 1) ≡ p.tuple_count - (j + 1) = omega arith in
            inr (
              j,
              e,
              rw (f, same, own_id fetches h l)
                  (at_row l s (omega arith) (next_live-live p.sizes i (p.tuple_count - i) j e)),
            )
      ]

  first_found :
      {id : ℕ} {ids : List ℕ}
      → Linked fetches h id ids
      → length ids < fuel
      → Searched id 0 ids (TablePage.get_first_tuple_rid (h.pages id))
  unfolding TablePage.get_first_tuple_rid
  first_found {id = id} l s = rw (minus_zero (h.pages id).tuple_count) (search 0 l s (omega arith))

  next_found :
      {id : ℕ} {ids : List ℕ} (j : ℕ)
      → Linked fetches h id ids
      → length ids < fuel
      → j < (h.pages id).tuple_count
      → Searched id (j + 1) ids (TablePage.get_next_tuple_rid (h.pages id) j)
  unfolding TablePage.get_next_tuple_rid
  next_found j l s b = search (j + 1) l s (omega arith)

  advance-begin_loop :
      (n : ℕ) (p : TablePage) → advance fetches h n p ≡ begin_loop fetches h n p.next_page_id
  unfolding advance begin_loop
  advance-begin_loop zero p = refl
  advance-begin_loop (suc n) p = elim (Option-cases p.next_page_id) [
    | inl e ↦ ground (arith, e)
    | inr (id, e) ↦ ground (arith, e, advance-begin_loop n (h.pages id))
  ]

  begin_found :
      (n id j : ℕ)
      → fetches id ≡ true
      → TablePage.get_first_tuple_rid (h.pages id) ≡ some j
      → begin_loop fetches h (suc n) (some id) ≡ ok (some (rid_on (h.pages id) j))
  unfolding begin_loop
  begin_found n id j f e = rw (begin_loop, f, e) refl

  begin_missed :
      (n id : ℕ)
      → fetches id ≡ true
      → TablePage.get_first_tuple_rid (h.pages id) ≡ none
      → begin_loop fetches h (suc n) (some id) ≡ begin_loop fetches h n (h.pages id).next_page_id
  unfolding begin_loop
  begin_missed n id f e = rw (begin_loop, f, e) refl

  unfoldable pub Reached : ℕ → Option ℕ → List Rid → Type 0
  Reached n id rids = (rid : Option Rid) × (begin_loop fetches h n id ≡ ok rid) × At rid rids

  -- Begin from a page on comes to the first RID of the linked pages.
  pub begin_loop-At :
      (n : ℕ) {id : ℕ} {ids : List ℕ}
      → Linked fetches h id ids
      → length ids + 1 < n
      → length ids < fuel
      → Reached n (some id) (rids_behind h id 0 ++ rids_of h ids)
  unfolding Reached rids_of Searched begin_loop
  begin_loop-At zero l b s = absurd (omega arith)
  begin_loop-At (suc zero) (last_page f t e) b s = absurd (omega arith)
  begin_loop-At (suc (suc n)) {id = id} (last_page f t e) b s =
      elim (first_found (last_page f t e) s) [
        | inl (missed, same) ↦ (
          none,
          begin_missed (suc n) id f missed ∙ ap (begin_loop fetches h (suc n)) e,
          rw same at_end,
        )
        | inr (j, live, a) ↦ (some (rid_on (h.pages id) j), begin_found (suc n) id j f live, a)
      ]
  begin_loop-At (suc n) {id = id} (page {next_id = next_id} {ids = ids} f t e l) b s =
      let rest = begin_loop-At n {id = next_id} {ids = ids} l (omega arith) (omega arith) in
      elim (first_found (page f t e l) s) [
        | inl (missed, same) ↦ (
          rest.0,
          begin_missed n id f missed ∙ ap (begin_loop fetches h n) e ∙ rest.1,
          rw same rest.2,
        )
        | inr (j, live, a) ↦ (some (rid_on (h.pages id) j), begin_found n id j f live, a)
      ]

  begin_loop-behind :
      (n : ℕ) {id : ℕ} {ids : List ℕ}
      → Linked fetches h id ids
      → length ids < n
      → length ids < fuel
      → Reached n (h.pages id).next_page_id (rids_of h ids)
  unfolding Reached rids_of begin_loop
  begin_loop-behind zero l b s = absurd (omega arith)
  begin_loop-behind (suc n) {id = id} (last_page f t e) b s =
      (none, ap (begin_loop fetches h (suc n)) e, at_end)
  begin_loop-behind (suc n) {id = id} (page f t e l) b s =
      let rest = begin_loop-At (suc n) l (omega arith) (omega arith) in
      (rest.0, ap (begin_loop fetches h (suc n)) e ∙ rest.1, rest.2)

  -- operator++ goes on to the next RID.
  next_rid-row :
      {id j : ℕ} {ids : List ℕ}
      → Linked fetches h id ids
      → length ids < fuel
      → j < (h.pages id).tuple_count
      → (following : Option Rid) × (next_rid fetches h fuel (slot_rid id j) ≡ ok following)
        × At following (rids_behind h id (j + 1) ++ rids_of h ids)
  unfolding next_rid Searched Reached
  next_rid-row {id = id} {j = j} l s b =
      let p = h.pages id in
      let rest = begin_loop-behind fuel l s s in
      elim (next_found j l s b) [
        | inl (missed, same) ↦ (
          rest.0,
          rw (fetched fetches h l, own_page fetches h id l, missed)
              (advance-begin_loop fuel p ∙ rest.1),
          rw same rest.2,
        )
        | inr (k, live, a) ↦
            (some (rid_on p k), rw (fetched fetches h l, own_page fetches h id l, live) refl, a)
      ]

  pub At-nil : (r : Option Rid) → At r [] → r ≡ none
  At-nil r at_end = refl

  pub At-cons :
      (r : Option Rid) (rid : Rid) (rids : List Rid)
      → At r (rid ∷ rids)
      → (r ≡ some rid)
        × (following : Option Rid) × (next_rid fetches h fuel rid ≡ ok following)
        × At following rids
  At-cons r rid rids (at_row l s b live) =
      let step = next_rid-row l s b in (refl, step.0, step.1, step.2)
