-- ===== src/Buffer/Pool/Frames.antt =====
-- How FetchPageImpl and NewPageImpl find a frame and fill it.
use lab.Common.{
  ℕ, ◌≡◌, refl, false, Option, none, some, List, [], ◌∷◌, contains, remove, lookup, erase, arith,
  ok, update, if◌then◌else◌, lookup-erase, contains-remove_self, contains-remove_ne, Option-cases,
}
use lab.Buffer.Replacer.{Replacer, Chosen, after_victim}
use lab.Buffer.Pool.{BufferPool, evict, take_frame}
use lab.Buffer.Pool.Inv.{Inv, Ready, Keeps, Taken, view}
use lab.Storage.Disk.{page_limit, write_page, page_at-write_at, length-write_at-le}

module _ (R : Replacer) {D : Type 0} (zeros : D) where
  abbrev Pool : Type 0
  Pool = BufferPool R D

  -- The pool after the frame `f` of page `old` is evicted, with the replacer `r`.
  abbrev evicted : Pool → R.State → ℕ → ℕ → Pool
  evicted p r f old =
      let page = p.pages f in
      record p {
        pages =
            if page.is_dirty then update p.pages f (record page { is_dirty = false }) else p.pages;
        disk = if page.is_dirty then write_page zeros p.disk old page.content else p.disk;
        page_table = erase old p.page_table;
        replacer = r;
      }

  module _ (p : Pool) (l : List ℕ) (v : Inv R zeros p l) (r : R.State) (f old : ℕ)
      (h : R.Holds r (remove f l)) (e : lookup old p.page_table ≡ some f)
      (u : (p.pages f).pin_count ≡ 0) where
    evict_lem : evict R zeros (record p { replacer = r }) f ≡ ok (evicted p r f old, some f)
    unfolding evict
    evict_lem = ground (arith, v.mapped old f)

    -- No other page has the frame.
    other : (id : ℕ) → lookup id p.page_table ≡ some f → id ≡ old
    other id k = ground (arith, v.mapped id f, v.mapped old f)

    evicted-Ready : Ready R zeros (evicted p r f old) (remove f l) f
    unfolding write_page
    evicted-Ready = record {
      inv = record {
        holds = h;
        mapped = λ id g m. ground (arith, lookup-erase old id p.page_table, v.mapped id g);
        evictable = λ g m.
            (let (id, k, z) =
                v.evictable g
                  (ground (arith, m, contains-remove_self f l, contains-remove_ne g f l)) in
              (
                id,
                ground (arith, m, lookup-erase old id p.page_table, contains-remove_self f l),
                ground arith,
              ));
        idle = λ id g m z. ground (
          arith,
          lookup-erase old id p.page_table,
          v.idle id g,
          contains-remove_ne g f l,
          v.mapped id g,
          v.mapped old f,
        );
        free = λ g m. ground (arith, v.free g);
        free_unmapped =
            λ g id m k. ground (arith, lookup-erase old id p.page_table, v.free_unmapped g id);
        free_distinct = v.free_distinct;
        clean = λ id g m z d. ground (
          arith,
          lookup-erase old id p.page_table,
          v.clean id g,
          v.mapped id g,
          v.mapped old f,
          page_at-write_at zeros p.disk.file old id (p.pages f).content,
        );
        file_fits = ground (
          arith,
          v.file_fits,
          v.ids_fit,
          v.mapped old f,
          length-write_at-le zeros p.disk.file old (p.pages f).content page_limit,
        );
        ids_fit = ground (arith, v.ids_fit);
      };
      in_range = ground (arith, v.mapped old f);
      unpinned = ground arith;
      not_dirty = ground arith;
      not_free = ground (arith, v.free_unmapped f old);
      unmapped = λ id m. ground (arith, lookup-erase old id p.page_table, other id);
    }

    view-evicted : (id : ℕ) → view R zeros (evicted p r f old) id ≡ view R zeros p id
    unfolding view write_page
    view-evicted id = ground (
      arith,
      lookup-erase old id p.page_table,
      other id,
      v.clean old f,
      Option-cases (lookup id p.page_table),
      page_at-write_at zeros p.disk.file old id (p.pages f).content,
    )

    evicted-Keeps : Keeps R zeros p (evicted p r f old)
    unfolding write_page
    evicted-Keeps = record {
      views = view-evicted;
      pinned = λ id g m z. ground (arith, lookup-erase old id p.page_table);
      absent = λ id m. ground (arith, lookup-erase old id p.page_table);
      same_size = refl;
      same_next = ground arith;
      same_latch = refl;
    }

  module _ (p : Pool) (l : List ℕ) (v : Inv R zeros p l) where
    free-Ready :
        (f : ℕ) (rest : List ℕ)
        → p.free_list ≡ f ∷ rest
        → Ready R zeros (record p { free_list = rest }) l f
    unfolding contains
    free-Ready f rest e = record {
      inv = record {
        holds = v.holds;
        mapped = v.mapped;
        evictable = v.evictable;
        idle = v.idle;
        free = λ g m. ground (arith, v.free g);
        free_unmapped = λ g id m. v.free_unmapped g id (ground arith);
        free_distinct = ground (arith, v.free_distinct);
        clean = v.clean;
        file_fits = v.file_fits;
        ids_fit = v.ids_fit;
      };
      in_range = ground (arith, v.free f);
      unpinned = ground (arith, v.free f);
      not_dirty = ground (arith, v.free f);
      not_free = ground (arith, v.free_distinct);
      unmapped = λ id. v.free_unmapped f id (ground arith);
    }

    with_replacer : (r : R.State) → R.Holds r l → Inv R zeros (record p { replacer = r }) l
    with_replacer r h = record {
      holds = h;
      mapped = v.mapped;
      evictable = v.evictable;
      idle = v.idle;
      free = v.free;
      free_unmapped = v.free_unmapped;
      free_distinct = v.free_distinct;
      clean = v.clean;
      file_fits = v.file_fits;
      ids_fit = v.ids_fit;
    }

    same-Keeps :
        (r : R.State) (free : List ℕ)
        → Keeps R zeros p (record p { replacer = r; free_list = free })
    unfolding view
    same-Keeps r free = record {
      views = λ id. refl;
      pinned = λ id g m z. (m, refl);
      absent = λ id m. m;
      same_size = refl;
      same_next = refl;
      same_latch = refl;
    }

    abbrev Search : Type 0
    Search =
        (q : Pool) × (m : Option ℕ) × (l' : List ℕ) × (take_frame R zeros p ≡ ok (q, m))
        × Taken R zeros p q l l' m
        × Keeps R zeros p q

    victim_chosen :
        (r : R.State) (m : Option ℕ)
        → p.free_list ≡ []
        → R.victim p.replacer ≡ ok (r, m)
        → Chosen l m
        → R.Holds r (after_victim m l)
        → Search
    unfolding take_frame
    victim_chosen r none empty e c h = (
      record p { replacer = r },
      none,
      l,
      ground arith,
      (empty, c, with_replacer r h),
      same-Keeps r p.free_list,
    )
    victim_chosen r (some f) empty e c h =
        let (id, k, z) = v.evictable f c in
        (
          evicted p r f id,
          some f,
          remove f l,
          ground (arith, evict_lem p l v r f id h k z),
          evicted-Ready p l v r f id h k z,
          evicted-Keeps p l v r f id h k z,
        )

    -- The search for a frame never fails an `assert`; it gives none only if there is none to give.
    find_frame : (free : List ℕ) → p.free_list ≡ free → Search
    unfolding take_frame
    find_frame [] e =
        let (r, m, k, c, h) = R.victim_lem p.replacer l v.holds in victim_chosen r m e k c h
    find_frame (f ∷ rest) e = (
      record p { free_list = rest },
      some f,
      l,
      ground arith,
      free-Ready f rest e,
      same-Keeps p.replacer rest,
    )

    pub take_frame-Taken : Search
    take_frame-Taken = find_frame p.free_list refl
