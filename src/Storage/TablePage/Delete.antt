-- ===== src/Storage/TablePage/Delete.antt =====
-- MarkDelete, ApplyDelete and RollbackDelete of a table page.
use mathlib.Core.Path.{fun_ext}
use lab.Common.{
  ℕ, ◌+◌, ◌-◌, ◌*◌, ◌≤◌, ◌<◌, ◌≡◌, ◌≢◌, ◌⊎◌, inl, inr, ap, ◌∙◌, true, false, ◌&&◌, none, ok, ltb,
  leb, if◌then◌else◌, update, arith,
}
use lab.BTree.Entries.{entries_ext}
use lab.Storage.TablePage.{
  TablePage, sum32, memcpy, memmove, is_deleted, set_deleted_flag, unset_deleted_flag, mark_delete,
  shift_offsets, deleted_size, apply_delete, rollback_delete, get_tuple,
}
use lab.Storage.TablePage.Valid.{sum32_lem, len, IsUsed, IsValid, tuple_at, KeepsOthers}

module _ (p : TablePage) (page_size : ℕ) (v : IsValid p page_size) (slot : ℕ)
    (u : IsUsed p slot) where
  abbrev offset : ℕ
  offset = p.offsets slot

  abbrev size : ℕ
  size = len p slot

  abbrev pointer : ℕ
  pointer = p.free_space_pointer

  deleted_size_lem : deleted_size (p.sizes slot) ≡ size
  unfolding deleted_size unset_deleted_flag is_deleted
  deleted_size_lem = ground arith

  facts :
      (0 < size)
      × (pointer ≤ offset)
      × (offset + size ≤ page_size)
      × (24 + 8 * p.tuple_count ≤ pointer)
      × (page_size ≤ 4096)
  facts = ground (arith, v.header, v.small, v.behind slot u, v.before slot u, v.long slot u)

  abbrev freed : TablePage
  freed = record p {
    free_space_pointer = sum32 pointer size 0;
    bytes = memmove p.bytes (pointer + size) pointer (offset - pointer);
    sizes = update p.sizes slot 0;
    offsets = update p.offsets slot 0;
  }

  abbrev q : TablePage
  q = record freed { offsets = shift_offsets freed offset size 0 }

  pointer_lem : q.free_space_pointer ≡ pointer + size
  pointer_lem = ground (arith, facts, sum32_lem pointer size 0)

  slot_before : (i : ℕ) → IsUsed q i → IsUsed p i × (i ≢ slot)
  slot_before i w = (
    record { in_count = w.in_count; not_empty = λ e. w.not_empty (ground arith) },
    λ e. w.not_empty (ground arith),
  )

  -- A tuple before the removed one moves with the free space, one behind it stays.
  other_lem :
      (i : ℕ)
      → IsUsed p i
      → i ≢ slot
      → (q.sizes i ≡ p.sizes i)
        × (((p.offsets i + len p i ≤ offset) × (q.offsets i ≡ p.offsets i + size))
            ⊎ ((offset + size ≤ p.offsets i) × (q.offsets i ≡ p.offsets i)))
  unfolding shift_offsets
  other_lem i w d = ground (
    arith,
    facts,
    w.in_count,
    w.not_empty,
    v.apart i slot w u d,
    v.behind i w,
    v.before i w,
    v.long i w,
    sum32_lem (p.offsets i) size 0,
  )

  freed-IsValid : IsValid q page_size
  freed-IsValid = record {
    header = omega (arith, facts, pointer_lem);
    in_page = omega (arith, facts, pointer_lem);
    small = v.small;
    long = λ i w. let (x, d) = slot_before i w in ground (arith, other_lem i x d, v.long i x);
    behind = λ i w.
        let (x, d) = slot_before i w in
        ground (arith, other_lem i x d, v.behind i x, pointer_lem, facts);
    before =
        λ i w. let (x, d) = slot_before i w in ground (arith, other_lem i x d, v.before i x, facts);
    apart = λ i j w x n.
        let (y, d) = slot_before i w in
        let (z, c) = slot_before j x in
        ground (
          arith,
          facts,
          other_lem i y d,
          other_lem j z c,
          v.apart i j y z n,
          v.long i y,
          v.long j z,
        );
  }

  bytes_lem :
      (j : ℕ)
      → q.bytes j ≡ (
          if leb (pointer + size) j && ltb j (offset + size)
          then p.bytes (pointer + (j - (pointer + size)))
          else p.bytes j)
  unfolding memmove memcpy
  bytes_lem j = ground (arith, facts)

  kept_tuple : (i : ℕ) → IsUsed p i → i ≢ slot → tuple_at q i ≡ tuple_at p i
  unfolding tuple_at
  kept_tuple i w d =
      let (same, place) = other_lem i w d in
      elim place [
        | inl (below, at) ↦
            rw (same, at)
              (entries_ext q.bytes p.bytes (p.offsets i + size) (p.offsets i) (len p i)
                (λ j l. ground (arith, facts, v.behind i w, bytes_lem (p.offsets i + size + j))))
        | inr (above, at) ↦
            rw (same, at)
              (entries_ext q.bytes p.bytes (p.offsets i) (p.offsets i) (len p i)
                (λ j l. ground (arith, facts, bytes_lem (p.offsets i + j))))
      ]

  freed-KeepsOthers : KeepsOthers p q slot
  freed-KeepsOthers = record { same_sizes = λ i l d. ground arith; same_tuples = kept_tuple }

  -- ApplyDelete on a slot in use of a valid page, marked as deleted or not, never fails an assertion: it
  -- empties the slot and gives its bytes back to the free space, the page stays valid, and every other
  -- slot keeps its tuple.
  pub apply_delete-KeepsOthers :
      (q : TablePage) × (apply_delete p slot ≡ ok q)
      × IsValid q page_size
      × (q.sizes slot ≡ 0)
      × (q.free_space_pointer ≡ p.free_space_pointer + len p slot)
      × KeepsOthers p q slot
  unfolding apply_delete
  apply_delete-KeepsOthers = (
    q,
    ground (arith, facts, u.in_count, deleted_size_lem),
    freed-IsValid,
    ground arith,
    pointer_lem,
    freed-KeepsOthers,
  )

module _ (p : TablePage) (slot : ℕ) where
  abbrev marked : TablePage
  marked = record p { sizes = update p.sizes slot (set_deleted_flag (p.sizes slot)) }

  restored :
      is_deleted (p.sizes slot) ≡ false
      → update marked.sizes slot (unset_deleted_flag (marked.sizes slot)) ≡ p.sizes
  unfolding is_deleted set_deleted_flag unset_deleted_flag
  restored live = fun_ext (λ j. ground arith)

  -- MarkDelete hides a live tuple, of a size below the flag, from GetTuple, and RollbackDelete then
  -- brings the page back as it was.
  pub rollback_delete-mark_delete :
      slot < p.tuple_count
      → is_deleted (p.sizes slot) ≡ false
      → (q : TablePage) × (mark_delete p slot ≡ (q, true))
        × (get_tuple q slot ≡ none)
        × (rollback_delete q slot ≡ ok p)
  unfolding mark_delete get_tuple rollback_delete is_deleted
  rollback_delete-mark_delete l live = (
    marked,
    ground arith,
    ground arith,
    ground arith ∙ ap (λ (sizes : ℕ → ℕ). ok (record p { sizes = sizes })) (restored live),
  )
