-- ===== src/Storage/TableHeap/Keeps.antt =====
-- What InsertTuple of a table heap, src/storage/table/table_heap.cpp, leaves as it is: the tuples that
-- the pages hold.
use lab.Common.{
  ℕ, ◌+◌, ◌≡◌, ◌≢◌, refl, sym, ap, ◌∙◌, subst, some, ◌==◌, ==_iff, update, arith, Bool-cases, inl,
  inr,
}
use lab.Storage.TablePage.{TablePage, Tuple, init}
use lab.Storage.TablePage.Valid.{IsUsed, IsValid, tuple_at}
use lab.Storage.TablePage.Insert.{Inserted}
use lab.Storage.TableHeap.{TableHeap, set_page}

-- A page that is put back as it was changes nothing.
pub set_page_same : (h : TableHeap) (id : ℕ) → set_page h id (h.pages id) ≡ h
set_page_same h id = λ i. record h { pages = λ j. same j i }
  where
    same : (j : ℕ) → update h.pages id (h.pages id) j ≡ h.pages j
    same j = elim (Bool-cases (id == j)) [
      | inl e ↦ rw e (ap h.pages ((==_iff id j).0 e))
      | inr e ↦ rw e refl
    ]

-- The slots in use keep their tuples and marks.
unfoldable pub PageKeeps : TablePage → TablePage → Type 0
PageKeeps p q =
    (i : ℕ) → IsUsed p i → IsUsed q i × (q.sizes i ≡ p.sizes i) × (tuple_at q i ≡ tuple_at p i)

unfoldable pub Keeps : TableHeap → TableHeap → Type 0
Keeps h h' = (id : ℕ) → PageKeeps (h.pages id) (h'.pages id)

pub Keeps-trans : (h h' h'' : TableHeap) → Keeps h h' → Keeps h' h'' → Keeps h h''
unfolding Keeps PageKeeps
Keeps-trans h h' h'' k l id i u =
    let (v, s, t) = k id i u in let (w, s', t') = l id i v in (w, s' ∙ s, t' ∙ t)

pub set_page-Keeps :
    (h : TableHeap) (id : ℕ) (q : TablePage) → PageKeeps (h.pages id) q → Keeps h (set_page h id q)
unfolding Keeps PageKeeps
set_page-Keeps h id q k j i u = elim (Bool-cases (id == j)) [
  | inl e ↦ rw e (subst (λ j. PageKeeps (h.pages j) q) ((==_iff id j).0 e) k i u)
  | inr e ↦ rw e (u, refl, refl)
]

pub Inserted-PageKeeps :
    (p : TablePage) (v : IsValid p 4096) (tuple : Tuple) (q : TablePage) (slot : ℕ)
    → Inserted p 4096 v tuple q slot
    → PageKeeps p q
unfolding PageKeeps
Inserted-PageKeeps p v tuple q slot done i u =
    let d : i ≢ slot = λ e. elim done.unused [
      | inl le ↦ omega (arith, e, le, u.in_count)
      | inr z ↦ u.not_empty (ap p.sizes e ∙ z)
    ] in
    let same = done.keeps.same_sizes i u.in_count d in
    (
      record {
        in_count = omega (arith, u.in_count, done.counted);
        not_empty = λ z. u.not_empty (sym same ∙ z);
      },
      same,
      done.keeps.same_tuples i u d,
    )

-- The heap with a new page behind the last one.
abbrev pub with_new_page : TablePage → TableHeap → ℕ → TableHeap
with_new_page p h id =
    let new_id = h.next_page_id in
    let linked = set_page h id (record p { next_page_id = some new_id }) in
    record (set_page linked new_id
      (init (linked.pages new_id) new_id 4096 (some p.table_page_id))) { next_page_id = new_id + 1 }

linked_count :
    (h : TableHeap) (id new_id j : ℕ)
    → ((set_page h id (record (h.pages id) { next_page_id = some new_id })).pages j).tuple_count
      ≡ (h.pages j).tuple_count
linked_count h id new_id j = elim (Bool-cases (id == j)) [
  | inl e ↦ rw e (ap (λ j. (h.pages j).tuple_count) ((==_iff id j).0 e))
  | inr e ↦ rw e refl
]

pub with_new_page-Keeps :
    (h : TableHeap) (id : ℕ)
    → (h.pages h.next_page_id).tuple_count ≡ 0
    → Keeps h (with_new_page (h.pages id) h id)
unfolding Keeps PageKeeps tuple_at
with_new_page-Keeps h id fresh =
    let new_id = h.next_page_id in
    let linked = set_page h id (record (h.pages id) { next_page_id = some new_id }) in
    Keeps-trans h linked (with_new_page (h.pages id) h id)
      (set_page-Keeps h id (record (h.pages id) { next_page_id = some new_id })
        (λ i u. (record { in_count = u.in_count; not_empty = u.not_empty }, refl, refl)))
      (set_page-Keeps linked new_id
        (init (linked.pages new_id) new_id 4096 (some (h.pages id).table_page_id))
        (λ i u. absurd (omega (arith, u.in_count, linked_count h id new_id new_id, fresh))))
