-- ===== src/Buffer/Pool/Defects.antt =====
-- The defects of the buffer pool: pages that are not resident, deleted pages, and FlushAllPages.
use lab.Common.{
  ℕ, ◌≡◌, refl, true, false, none, some, List, [], ◌∷◌, contains, lookup, insert, arith, ok, update,
  lookup-insert, contains-append, contains_self, lookup_nil, deadlock,
}
use mathlib.Core.List.{◌++◌}
use lab.Buffer.Replacer.{Replacer}
use lab.Buffer.Pool.{BufferPool, flush_page_impl, delete_page_impl, flush_all_pages}
use lab.Buffer.Pool.Inv.{Inv, view}
use lab.Storage.Disk.{page_at, write_page, page_at-write_at}

module _ (R : Replacer) {D : Type 0} (zeros : D) where
  abbrev Pool : Type 0
  Pool = BufferPool R D

  -- FlushPageImpl on a page that is not resident answers true, and writes what frame 0 holds over
  -- that page on the disk.
  pub flush_page_impl_missing :
      (p : Pool) (id : ℕ)
      → lookup id p.page_table ≡ none
      → (q : Pool) × (flush_page_impl R zeros id p ≡ ok (q, true))
        × (page_at zeros q.disk.file id ≡ (p.pages 0).content)
        × (lookup id q.page_table ≡ some 0)
  unfolding flush_page_impl write_page
  flush_page_impl_missing p id e = (
    record p {
      page_table = insert id 0 p.page_table;
      pages = update p.pages 0 (record (p.pages 0) { is_dirty = false });
      disk = write_page zeros p.disk id (p.pages 0).content;
    },
    ground arith,
    ground (arith, page_at-write_at zeros p.disk.file id id (p.pages 0).content),
    ground (arith, lookup-insert id id 0 p.page_table),
  )

  -- The pool after the frame `f` is reset for page `id`.
  abbrev reset : Pool → R.State → ℕ → Pool
  reset p r f = record p {
    pages =
        update p.pages f
          (record { content = zeros; page_id = none; pin_count = 0; is_dirty = false });
    replacer = r;
    free_list = p.free_list ++ f ∷ [];
  }

  contains-last : (x : ℕ) (xs : List ℕ) → contains x (xs ++ x ∷ []) ≡ true
  contains-last x xs = ground (arith, contains-append x xs (x ∷ []), contains_self x)

  module _ (p : Pool) (l : List ℕ) (v : Inv R zeros p l) where
    -- DeletePageImpl on a page that is not resident, when page `victim` is in frame 0 and nobody
    -- has pinned it, answers true and wipes that other page: its contents are lost to the clients,
    -- and its frame is free while the page table still names it.
    pub delete_page_impl_missing :
        (id other : ℕ)
        → lookup id p.page_table ≡ none
        → lookup other p.page_table ≡ some 0
        → (p.pages 0).pin_count ≡ 0
        → (q : Pool) × (delete_page_impl R zeros id p ≡ ok (q, true))
          × (view R zeros q other ≡ zeros)
          × (lookup other q.page_table ≡ some 0)
          × (contains 0 q.free_list ≡ true)
    unfolding delete_page_impl view
    delete_page_impl_missing id other e k z =
        let (r, t, h) = R.pin_lem p.replacer l 0 v.holds in
        (
          reset (record p { page_table = insert id 0 p.page_table }) r 0,
          ground (arith, t, lookup-insert id id 0 p.page_table),
          ground (arith, lookup-insert id other 0 p.page_table),
          ground (arith, lookup-insert id other 0 p.page_table),
          contains-last 0 p.free_list,
        )

    -- DeletePageImpl on a resident page that nobody has pinned answers true and frees the frame,
    -- but leaves the page in the page table: no state that it reaches satisfies the invariant.
    pub delete_page_impl-not-Inv :
        (id f : ℕ)
        → lookup id p.page_table ≡ some f
        → (p.pages f).pin_count ≡ 0
        → (q : Pool) × (delete_page_impl R zeros id p ≡ ok (q, true))
          × (lookup id q.page_table ≡ some f)
          × (contains f q.free_list ≡ true)
          × ((l' : List ℕ) → ¬ Inv R zeros q l')
    unfolding delete_page_impl
    delete_page_impl-not-Inv id f e z =
        let (r, t, h) = R.pin_lem p.replacer l f v.holds in
        (
          reset p r f,
          ground (arith, t),
          e,
          contains-last f p.free_list,
          λ l' w. w.free_unmapped f id (contains-last f p.free_list) e,
        )

  -- FlushAllPagesImpl never returns if a page is resident: it holds the latch, and FlushPageImpl
  -- waits for it.
  pub flush_all_pages-deadlock :
      (p : Pool) (id f : ℕ) → lookup id p.page_table ≡ some f → flush_all_pages R zeros p ≡ deadlock
  unfolding flush_all_pages
  flush_all_pages-deadlock p id f e = stuck p.page_table refl
    where
      stuck : (m : List (ℕ × ℕ)) → p.page_table ≡ m → flush_all_pages R zeros p ≡ deadlock
      stuck [] k = absurd (ground (arith, k, lookup_nil {V = ℕ} id))
      stuck ((j, g) ∷ rest) k = ground (arith, k)
