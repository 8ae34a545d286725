-- ===== src/Buffer/Pool/Fetch.antt =====
-- FetchPageImpl: it keeps the invariant, and returns the page that the clients last wrote.
use lab.Common.{
  ℕ, suc, ◌+◌, ◌<◌, ◌≡◌, ◌≢◌, refl, ◌∙◌, inl, inr, Option, none, some, List, [], remove, lookup,
  insert, arith, ok, update, ◌==◌, if◌then◌else◌, lookup-insert, contains-remove_self,
  contains-remove_ne, Option-cases, is_some, contains_nil,
}
use lab.Buffer.Replacer.{Replacer, after_pin}
use lab.Buffer.Pool.{BufferPool, Page, take_frame, fetch_page_impl}
use lab.Buffer.Pool.Inv.{Inv, Ready, Keeps, Taken, view}
use lab.Buffer.Pool.Frames.{take_frame-Taken}
use lab.Storage.Disk.{page_at, read_page, read_page-page_at}

module _ (R : Replacer) {D : Type 0} (zeros : D) where
  abbrev Pool : Type 0
  Pool = BufferPool R D

  -- The frame `f` filled with `page`, which is the page `id`.
  abbrev pub filled : Pool → ℕ → ℕ → Page D → Pool
  filled p id f page = record p {
    pages = update p.pages f page;
    page_table = insert id f p.page_table;
  }

  module _ (p : Pool) (l : List ℕ) (f : ℕ) (v : Ready R zeros p l f) (id : ℕ) (page : Page D)
      (new : lookup id p.page_table ≡ none) (own : page.page_id ≡ some id)
      (one : page.pin_count ≡ 1) (known : id < p.disk.next_page_id) where
    pub filled-Inv : Inv R zeros (filled p id f page) l
    filled-Inv = record {
      holds = v.inv.holds;
      mapped = λ j g m.
          ground
            (arith, lookup-insert id j f p.page_table, v.inv.mapped j g, v.unmapped j, v.in_range);
      evictable = λ g m.
          (let (j, k, z) = v.inv.evictable g m in
            (j, ground (arith, lookup-insert id j f p.page_table), ground (arith, v.unmapped j)));
      idle = λ j g m z.
          ground (arith, lookup-insert id j f p.page_table, v.inv.idle j g, v.unmapped j);
      free = λ g m. ground (arith, v.inv.free g, v.not_free);
      free_unmapped = λ g j m k.
          ground (arith, lookup-insert id j f p.page_table, v.inv.free_unmapped g j, v.not_free);
      free_distinct = v.inv.free_distinct;
      clean = λ j g m z d.
          ground (arith, lookup-insert id j f p.page_table, v.inv.clean j g, v.unmapped j);
      file_fits = v.inv.file_fits;
      ids_fit = v.inv.ids_fit;
    }

    pub view-filled :
        (j : ℕ)
        → view R zeros (filled p id f page) j ≡ (if id == j then page.content else view R zeros p j)
    unfolding view
    view-filled j = ground (
      arith,
      lookup-insert id j f p.page_table,
      v.unmapped j,
      Option-cases (lookup j p.page_table),
    )

    pub filled_pinned :
        (j g : ℕ)
        → lookup j p.page_table ≡ some g
        → (lookup j (filled p id f page).page_table ≡ some g)
          × ((filled p id f page).pages g ≡ p.pages g)
    filled_pinned j g m = ground (arith, lookup-insert id j f p.page_table, v.unmapped j)

  -- What FetchPage promises. `m` is the frame that it returns.
  pub record Fetched (p q : Pool) (id : ℕ) (m : Option ℕ) : Type 0 where
    -- every page holds what it held
    pub views : (j : ℕ) → view R zeros q j ≡ view R zeros p j
    -- the frame is that of the page, with one more pin if it was resident and one pin if not
    pub frame :
        (f : ℕ)
        → m ≡ some f
        → (lookup id q.page_table ≡ some f)
          × (f < q.pool_size)
          × ((q.pages f).content ≡ view R zeros p id)
          × ((q.pages f).pin_count
              ≡ (if is_some (lookup id p.page_table) then suc (p.pages f).pin_count else 1))
    -- there is no frame only if none is free and every resident page is pinned
    pub refused :
        m ≡ none
        → (lookup id p.page_table ≡ none)
          × (p.free_list ≡ [])
          × ((j g : ℕ) → lookup j p.page_table ≡ some g → 0 < (p.pages g).pin_count)
    -- the other pinned pages stay where they are
    pub pinned :
        (j g : ℕ)
        → j ≢ id
        → lookup j p.page_table ≡ some g
        → 0 < (p.pages g).pin_count
        → (lookup j q.page_table ≡ some g) × (q.pages g ≡ p.pages g)
    pub same_latch : q.latched ≡ p.latched
    pub same_next : q.disk.next_page_id ≡ p.disk.next_page_id

  module _ (p : Pool) (l : List ℕ) (v : Inv R zeros p l) (id : ℕ) where
    abbrev Result : Type 0
    Result =
        (q : Pool) × (m : Option ℕ) × (l' : List ℕ) × (fetch_page_impl R zeros id p ≡ ok (q, m))
        × Inv R zeros q l'
        × Fetched p q id m

    module _ (f : ℕ) (e : lookup id p.page_table ≡ some f) (r : R.State)
        (h : R.Holds r (after_pin f l)) where
      abbrev pinned_pool : Pool
      pinned_pool = record p {
        pages = update p.pages f (record (p.pages f) { pin_count = (p.pages f).pin_count + 1 });
        replacer = r;
      }

      pinned-Inv : Inv R zeros pinned_pool (remove f l)
      pinned-Inv = record {
        holds = h;
        mapped = λ j g m. ground (arith, v.mapped j g);
        evictable = λ g m.
            (let (j, k, z) =
                v.evictable g
                  (ground (arith, contains-remove_self f l, contains-remove_ne g f l)) in
              (j, k, ground (arith, contains-remove_self f l)));
        idle = λ j g m z. ground (arith, v.idle j g, contains-remove_ne g f l);
        free = λ g m. ground (arith, v.free g, v.free_unmapped g id);
        free_unmapped = v.free_unmapped;
        free_distinct = v.free_distinct;
        clean = λ j g m z d. ground (arith, v.clean j g);
        file_fits = v.file_fits;
        ids_fit = v.ids_fit;
      }

      pinned-Fetched : Fetched p pinned_pool id (some f)
      unfolding view is_some
      pinned-Fetched = record {
        views = λ j. ground (arith, Option-cases (lookup j p.page_table));
        frame = λ g k. ground (arith, v.mapped id f);
        refused = λ k. cc;
        pinned = λ j g n m z. ground (arith, v.mapped j g, v.mapped id f);
        same_latch = refl;
        same_next = refl;
      }

    hit : (f : ℕ) → lookup id p.page_table ≡ some f → Result
    unfolding fetch_page_impl
    hit f e =
        let (r, k, h) = R.pin_lem p.replacer l f v.holds in
        (
          pinned_pool f e r h,
          some f,
          remove f l,
          rw (e, fetch_page_impl, k),
          pinned-Inv f e r h,
          pinned-Fetched f e r h,
        )

    module _ (known : id < p.disk.next_page_id) (e : lookup id p.page_table ≡ none) (q : Pool)
        (l' : List ℕ) (k : Keeps R zeros p q) where
      none_found : take_frame R zeros p ≡ ok (q, none) → Taken R zeros p q l l' none → Result
      unfolding fetch_page_impl
      none_found t w = (
        q,
        none,
        l',
        rw (e, fetch_page_impl, t),
        w.2,
        record {
          views = k.views;
          frame = λ f c. cc;
          refused = λ _. (e, w.0, λ j g m. ground (arith, v.idle j g m, w.1, contains_nil g));
          pinned = λ j g n m z. k.pinned j g m z;
          same_latch = k.same_latch;
          same_next = k.same_next;
        },
      )

      module _ (f : ℕ) (t : take_frame R zeros p ≡ ok (q, some f)) (w : Ready R zeros q l' f) where
        abbrev loaded : Page D
        loaded = record (q.pages f) {
          content = page_at zeros q.disk.file id;
          page_id = some id;
          pin_count = (q.pages f).pin_count + 1;
        }

        absent : lookup id q.page_table ≡ none
        absent = k.absent id e

        one : (q.pages f).pin_count + 1 ≡ 1
        one = omega (arith, w.unpinned)

        from_disk : page_at zeros q.disk.file id ≡ view R zeros p id
        unfolding view
        from_disk = ground (arith, k.views id, absent)

        readable : read_page zeros q.disk id zeros ≡ ok (page_at zeros q.disk.file id)
        readable =
            read_page-page_at zeros q.disk id w.inv.file_fits
              (omega (arith, w.inv.ids_fit, k.same_next, known))

        loaded-Fetched : Fetched p (filled q id f loaded) id (some f)
        unfolding is_some
        loaded-Fetched = record {
          views = λ j. ground (
            arith,
            view-filled q l' f w id loaded absent refl one (omega (arith, k.same_next, known)) j,
            k.views j,
            from_disk,
          );
          frame = λ g c.
              ground (arith, e, lookup-insert id id f q.page_table, w.in_range, from_disk, one);
          refused = λ c. cc;
          pinned = λ j g n m z.
              let (a, b) = k.pinned j g m z in
              let (a', b') =
                filled_pinned q l' f w id loaded absent refl one (omega (arith, k.same_next, known))
                  j g a in
              (a', b' ∙ b);
          same_latch = k.same_latch;
          same_next = k.same_next;
        }

        some_found : Result
        unfolding fetch_page_impl
        some_found = (
          filled q id f loaded,
          some f,
          l',
          rw (e, fetch_page_impl, t, readable),
          filled-Inv q l' f w id loaded absent refl one (omega (arith, k.same_next, known)),
          loaded-Fetched,
        )

      found : (m : Option ℕ) → take_frame R zeros p ≡ ok (q, m) → Taken R zeros p q l l' m → Result
      found none t w = none_found t w
      found (some f) t w = some_found f t w

    -- FetchPageImpl on an allocated page id never fails an `assert` and is never undefined; it
    -- keeps the invariant, and does what FetchPage promises.
    pub fetch_page_impl-Fetched : id < p.disk.next_page_id → Result
    fetch_page_impl-Fetched known = elim (Option-cases (lookup id p.page_table)) [
      | inr (f, e) ↦ hit f e
      | inl e ↦
          let (q, m, l', t, w, k) = take_frame-Taken R zeros p l v in found known e q l' k m t w
    ]
