-- ===== src/Buffer/Pool/Unpin.antt =====
-- UnpinPageImpl: it keeps the invariant if a client that wrote to a page says so.
use lab.Common.{
  ℕ, zero, suc, ◌-◌, ◌≡◌, ◌≢◌, refl, inl, inr, Bool, true, false, ◌||◌, some, List, contains,
  lookup, arith, ok, update, ◌==◌, if◌then◌else◌, Bool-cases, Option-cases,
}
use lab.Buffer.Replacer.{Replacer, after_unpin}
use lab.Buffer.Pool.{BufferPool, unpin_page_impl}
use lab.Buffer.Pool.Inv.{Inv, view}
use lab.Storage.Disk.{page_at}

module _ (R : Replacer) {D : Type 0} (zeros : D) where
  abbrev Pool : Type 0
  Pool = BufferPool R D

  -- The client's duty: when the last pin of the page goes and neither this client nor an earlier
  -- one calls the page dirty, the page is as it is on disk.
  abbrev pub Honest : Pool → ℕ → Bool → Type 0
  Honest p id dirty =
      (f : ℕ)
      → lookup id p.page_table ≡ some f
      → (p.pages f).pin_count ≡ 1
      → (p.pages f).is_dirty || dirty ≡ false
      → (p.pages f).content ≡ page_at zeros p.disk.file id

  -- What UnpinPage promises. `done` is its result.
  pub record Unpinned (p q : Pool) (id : ℕ) (dirty done : Bool) : Type 0 where
    pub views : (j : ℕ) → view R zeros q j ≡ view R zeros p j
    -- it fails only on a page that is not resident or that has no pin, and then changes nothing
    pub failed :
        done ≡ false
        → (q ≡ p) × ((f : ℕ) → lookup id p.page_table ≡ some f → (p.pages f).pin_count ≡ 0)
    -- it takes one pin, and remembers that the page is dirty
    pub dropped :
        done ≡ true
        → (f : ℕ) × (lookup id p.page_table ≡ some f)
          × ((p.pages f).pin_count ≡ suc (q.pages f).pin_count)
          × ((q.pages f).is_dirty ≡ ((p.pages f).is_dirty || dirty))
    pub same_table : q.page_table ≡ p.page_table
    pub others : (j g : ℕ) → j ≢ id → lookup j p.page_table ≡ some g → q.pages g ≡ p.pages g
    pub same_disk : q.disk ≡ p.disk
    pub same_latch : q.latched ≡ p.latched

  module _ (p : Pool) (l : List ℕ) (v : Inv R zeros p l) (id : ℕ) (dirty : Bool) where
    abbrev Result : Type 0
    Result =
        (q : Pool) × (done : Bool) × (l' : List ℕ) × (unpin_page_impl R zeros id dirty p
          ≡ ok (q, done))
        × Inv R zeros q l'
        × Unpinned p q id dirty done

    unchanged :
        unpin_page_impl R zeros id dirty p ≡ ok (p, false)
        → ((f : ℕ) → lookup id p.page_table ≡ some f → (p.pages f).pin_count ≡ 0)
        → Result
    unchanged e z = (
      p,
      false,
      l,
      e,
      v,
      record {
        views = λ j. refl;
        failed = λ _. (refl, z);
        dropped = λ c. cc;
        same_table = refl;
        others = λ j g n m. refl;
        same_disk = refl;
        same_latch = refl;
      },
    )

    module _ (honest : Honest p id dirty) (f n : ℕ) (e : lookup id p.page_table ≡ some f)
        (z : (p.pages f).pin_count ≡ suc n) where
      -- The pool with one pin less.
      abbrev dropped_pool : R.State → Pool
      dropped_pool r = record p {
        pages = update p.pages f (record (p.pages f) {
          pin_count = (p.pages f).pin_count - 1;
          is_dirty = (p.pages f).is_dirty || dirty;
        });
        replacer = r;
      }

      dropped-Unpinned : (r : R.State) → Unpinned p (dropped_pool r) id dirty true
      unfolding view
      dropped-Unpinned r = record {
        views = λ j. ground (arith, Option-cases (lookup j p.page_table));
        failed = λ c. cc;
        dropped = λ _. (f, e, ground arith, ground arith);
        same_table = refl;
        others = λ j g d m. ground (arith, v.mapped j g, v.mapped id f);
        same_disk = refl;
        same_latch = refl;
      }

      -- The frame joins the evictable ones exactly when its last pin goes.
      abbrev evictable_after : List ℕ
      evictable_after = if n == 0 then after_unpin f l else l

      not_yet : contains f l ≡ false
      not_yet = elim (Bool-cases (contains f l)) [
        | inl m ↦
            absurd
              (ground (arith, (v.evictable f m).2, v.mapped id f, v.mapped (v.evictable f m).0 f))
        | inr m ↦ m
      ]

      member :
          (r : R.State) (g : ℕ)
          → contains g evictable_after ≡ true
          → (j : ℕ) × (lookup j p.page_table ≡ some g) × (((dropped_pool r).pages g).pin_count ≡ 0)
      unfolding contains
      member r g m = elim (Bool-cases (f == g)) [
        | inl same ↦ (id, ground arith, ground (arith, not_yet))
        | inr apart ↦ let (j, k, y) = v.evictable g (ground arith) in (j, k, ground arith)
      ]

      dropped-Inv :
          (r : R.State) → R.Holds r evictable_after → Inv R zeros (dropped_pool r) evictable_after
      unfolding contains
      dropped-Inv r h = record {
        holds = h;
        mapped = λ j g m. ground (arith, v.mapped j g);
        evictable = λ g m. member r g m;
        idle = λ j g m y. ground (arith, v.idle j g);
        free = λ g m. ground (arith, v.free g, v.free_unmapped g id);
        free_unmapped = v.free_unmapped;
        free_distinct = v.free_distinct;
        clean = λ j g m y d. ground (arith, v.clean j g, honest f, v.mapped j g, v.mapped id f);
        file_fits = v.file_fits;
        ids_fit = v.ids_fit;
      }

      drop : Result
      unfolding unpin_page_impl
      drop = elim (Bool-cases (n == 0)) [
        | inl last ↦
            let (r, k, h) = R.unpin_lem p.replacer l f v.holds in
            (
              dropped_pool r,
              true,
              evictable_after,
              ground (arith, k),
              dropped-Inv r (rw last h),
              dropped-Unpinned r,
            )
        | inr more ↦ (
          dropped_pool p.replacer,
          true,
          evictable_after,
          ground arith,
          dropped-Inv p.replacer (rw more v.holds),
          dropped-Unpinned p.replacer,
        )
      ]

    -- UnpinPageImpl keeps the invariant and does what UnpinPage promises, if the client is honest.
    pub unpin_page_impl-Unpinned : Honest p id dirty → Result
    unfolding unpin_page_impl
    unpin_page_impl-Unpinned honest = elim (Option-cases (lookup id p.page_table)) [
      | inl e ↦ unchanged (rw (e, unpin_page_impl)) (λ f m. cc)
      | inr (f, e) ↦
          (elim (p.pages f).pin_count as (λ n. (p.pages f).pin_count ≡ n → Result) [
            | zero ↦ λ z. unchanged (rw (e, unpin_page_impl, z)) (λ g m. ground arith)
            | suc n ↦ λ z. drop honest f n e z
          ])
            refl
    ]
