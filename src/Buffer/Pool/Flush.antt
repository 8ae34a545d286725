-- ===== src/Buffer/Pool/Flush.antt =====
-- FlushPageImpl on a resident page, and the writes of clients through a page pointer.
use lab.Common.{
  ℕ, ◌<◌, ◌≡◌, true, false, some, List, lookup, arith, ok, update, ◌==◌, if◌then◌else◌,
  Option-cases,
}
use lab.Buffer.Replacer.{Replacer}
use lab.Buffer.Pool.{BufferPool, flush_page_impl}
use lab.Buffer.Pool.Inv.{Inv, view}
use lab.Storage.Disk.{page_at, write_page, page_at-write_at, length-write_at-le}

module _ (R : Replacer) {D : Type 0} (zeros : D) where
  abbrev Pool : Type 0
  Pool = BufferPool R D

  -- What a client does through `Page::GetData()`: it fills the frame `f`.
  unfoldable pub write_frame : Pool → ℕ → D → Pool
  write_frame p f content = record p {
    pages = update p.pages f (record (p.pages f) { content = content });
  }

  module _ (p : Pool) (l : List ℕ) (v : Inv R zeros p l) (id f : ℕ)
      (e : lookup id p.page_table ≡ some f) where
    abbrev flushed : Pool
    flushed = record p {
      pages = update p.pages f (record (p.pages f) { is_dirty = false });
      disk = write_page zeros p.disk id (p.pages f).content;
    }

    flushed-Inv : Inv R zeros flushed l
    unfolding write_page
    flushed-Inv = record {
      holds = v.holds;
      mapped = λ j g m. ground (arith, v.mapped j g);
      evictable = λ g m. let (j, k, z) = v.evictable g m in (j, k, ground arith);
      idle = λ j g m z. ground (arith, v.idle j g);
      free = λ g m. ground (arith, v.free g);
      free_unmapped = v.free_unmapped;
      free_distinct = v.free_distinct;
      clean = λ j g m z d. ground (
        arith,
        v.clean j g,
        v.mapped j g,
        v.mapped id f,
        page_at-write_at zeros p.disk.file id j (p.pages f).content,
      );
      file_fits = ground (
        arith,
        v.file_fits,
        v.ids_fit,
        v.mapped id f,
        length-write_at-le zeros p.disk.file id (p.pages f).content 524287,
      );
      ids_fit = v.ids_fit;
    }

    -- FlushPageImpl on a resident page succeeds and keeps the invariant; the disk then holds the
    -- page, and every page holds what it held.
    pub flush_page_impl_resident :
        (q : Pool) × (flush_page_impl R zeros id p ≡ ok (q, true))
        × Inv R zeros q l
        × (page_at zeros q.disk.file id ≡ view R zeros p id)
        × ((j : ℕ) → view R zeros q j ≡ view R zeros p j)
    unfolding flush_page_impl view write_page
    flush_page_impl_resident = (
      flushed,
      ground arith,
      flushed-Inv,
      ground (arith, page_at-write_at zeros p.disk.file id id (p.pages f).content),
      λ j. ground (
        arith,
        Option-cases (lookup j p.page_table),
        v.mapped j f,
        v.mapped id f,
        page_at-write_at zeros p.disk.file id j (p.pages f).content,
      ),
    )

    -- A client that writes to a page that it has pinned changes that page alone.
    pub write_frame-view :
        (content : D)
        → 0 < (p.pages f).pin_count
        → Inv R zeros (write_frame p f content) l
          × ((j : ℕ)
              → view R zeros (write_frame p f content) j
                ≡ (if id == j then content else view R zeros p j))
    unfolding write_frame view
    write_frame-view content pinned = (
      record {
        holds = v.holds;
        mapped = λ j g m. ground (arith, v.mapped j g);
        evictable = λ g m. let (j, k, z) = v.evictable g m in (j, k, ground arith);
        idle = λ j g m z. ground (arith, v.idle j g);
        free = λ g m. ground (arith, v.free g);
        free_unmapped = v.free_unmapped;
        free_distinct = v.free_distinct;
        clean = λ j g m z d. ground (arith, v.clean j g);
        file_fits = v.file_fits;
        ids_fit = v.ids_fit;
      },
      λ j. ground (arith, Option-cases (lookup j p.page_table), v.mapped j f, v.mapped id f),
    )
