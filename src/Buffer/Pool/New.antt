-- ===== src/Buffer/Pool/New.antt =====
-- NewPageImpl: it keeps the invariant, and gives a page of zeros under an id that no page has.
use lab.Common.{
  ℕ, ◌+◌, ◌<◌, ◌≡◌, ◌≢◌, refl, ◌∙◌, inl, inr, false, Option, none, some, List, [], lookup, arith,
  ok, lookup-insert, Option-cases, contains_nil,
}
use lab.Buffer.Replacer.{Replacer}
use lab.Buffer.Pool.{BufferPool, Page, take_frame, new_page_impl}
use lab.Buffer.Pool.Inv.{Inv, Ready, Keeps, Taken, view}
use lab.Buffer.Pool.Frames.{take_frame-Taken}
use lab.Buffer.Pool.Fetch.{filled, filled-Inv, view-filled, filled_pinned}
use lab.Storage.Disk.{allocate_page, page_limit}

module _ (R : Replacer) {D : Type 0} (zeros : D) where
  abbrev Pool : Type 0
  Pool = BufferPool R D

  -- What NewPage promises. `id` is the page id and `m` the frame that it gives.
  pub record Created (p q : Pool) (id : ℕ) (m : Option ℕ) : Type 0 where
    -- the id is the next one, and no resident page has it
    pub fresh : (id ≡ p.disk.next_page_id) × (lookup id p.page_table ≡ none)
    pub counted : q.disk.next_page_id ≡ p.disk.next_page_id + 1
    -- the other pages hold what they held
    pub views : (j : ℕ) → j ≢ id → view R zeros q j ≡ view R zeros p j
    -- the frame holds zeros, under one pin
    pub frame :
        (f : ℕ)
        → m ≡ some f
        → (lookup id q.page_table ≡ some f)
          × (f < q.pool_size)
          × ((q.pages f).content ≡ zeros)
          × ((q.pages f).pin_count ≡ 1)
    pub refused :
        m ≡ none
        → (p.free_list ≡ [])
          × ((j g : ℕ) → lookup j p.page_table ≡ some g → 0 < (p.pages g).pin_count)
          × ((j : ℕ) → view R zeros q j ≡ view R zeros p j)
    pub pinned :
        (j g : ℕ)
        → lookup j p.page_table ≡ some g
        → 0 < (p.pages g).pin_count
        → (lookup j q.page_table ≡ some g) × (q.pages g ≡ p.pages g)
    pub same_latch : q.latched ≡ p.latched

  module _ (p : Pool) (l : List ℕ) (v : Inv R zeros p l) where
    abbrev Result : Type 0
    Result =
        (q : Pool) × (id : ℕ) × (m : Option ℕ) × (l' : List ℕ) × (new_page_impl R zeros p
          ≡ ok (q, (id, m)))
        × Inv R zeros q l'
        × Created p q id m

    -- The pool after AllocatePage.
    abbrev allocated : Pool
    allocated = record p { disk = record p.disk { next_page_id = p.disk.next_page_id + 1 } }

    abbrev next : ℕ
    next = p.disk.next_page_id

    absent : lookup next p.page_table ≡ none
    absent = elim (Option-cases (lookup next p.page_table)) [
      | inl e ↦ e
      | inr (f, e) ↦ absurd (omega (arith, (v.mapped next f e).2))
    ]

    module _ (room : next < page_limit) where
      allocated-Inv : Inv R zeros allocated l
      allocated-Inv = record {
        holds = v.holds;
        mapped = λ j g m. ground (arith, v.mapped j g);
        evictable = v.evictable;
        idle = v.idle;
        free = v.free;
        free_unmapped = v.free_unmapped;
        free_distinct = v.free_distinct;
        clean = v.clean;
        file_fits = v.file_fits;
        ids_fit = omega (arith, room);
      }

      module _ (q : Pool) (l' : List ℕ) (k : Keeps R zeros allocated q) where
        none_found :
            take_frame R zeros allocated ≡ ok (q, none)
            → Taken R zeros allocated q l l' none
            → Result
        unfolding new_page_impl allocate_page view
        none_found t w = (
          q,
          next,
          none,
          l',
          rw (new_page_impl, t),
          w.2,
          record {
            fresh = (refl, absent);
            counted = k.same_next;
            views = λ j d. k.views j;
            frame = λ f c. cc;
            refused =
                λ _. (w.0, λ j g m. ground (arith, v.idle j g m, w.1, contains_nil g), k.views);
            pinned = k.pinned;
            same_latch = k.same_latch;
          },
        )

        module _ (f : ℕ) (t : take_frame R zeros allocated ≡ ok (q, some f))
            (w : Ready R zeros q l' f) where
          abbrev blank : Page D
          blank = record { content = zeros; page_id = some next; pin_count = 1; is_dirty = false }

          still_absent : lookup next q.page_table ≡ none
          still_absent = k.absent next absent

          known : next < q.disk.next_page_id
          known = omega (arith, k.same_next)

          blank-Created : Created p (filled R zeros q next f blank) next (some f)
          unfolding view
          blank-Created = record {
            fresh = (refl, absent);
            counted = k.same_next;
            views = λ j d. ground (
              arith,
              view-filled R zeros q l' f w next blank still_absent refl refl known j,
              k.views j,
            );
            frame = λ g c. ground (arith, lookup-insert next next f q.page_table, w.in_range);
            refused = λ c. cc;
            pinned = λ j g m z.
                let (a, b) = k.pinned j g m z in
                let (a', b') =
                  filled_pinned R zeros q l' f w next blank still_absent refl refl known j g a in
                (a', b' ∙ b);
            same_latch = k.same_latch;
          }

          some_found : Result
          unfolding new_page_impl allocate_page
          some_found = (
            filled R zeros q next f blank,
            next,
            some f,
            l',
            rw (new_page_impl, t),
            filled-Inv R zeros q l' f w next blank still_absent refl refl known,
            blank-Created,
          )

        found :
            (m : Option ℕ)
            → take_frame R zeros allocated ≡ ok (q, m)
            → Taken R zeros allocated q l l' m
            → Result
        found none t w = none_found t w
        found (some f) t w = some_found f t w

      -- NewPageImpl never fails an `assert`; it keeps the invariant, and does what NewPage promises.
      pub new_page_impl-Created : Result
      new_page_impl-Created =
          let (q, m, l', t, w, k) = take_frame-Taken R zeros allocated l allocated-Inv in
          found q l' k m t w
