-- ===== src/Buffer/Pool/History.antt =====
-- The methods of the buffer pool with their latch, and the histories of clients that keep to the
-- rules: they fetch allocated pages, write only to pages that they have pinned, tell UnpinPage what
-- they wrote, flush resident pages, and delete none.
use mathlib.Core.Path.{fun_ext}
use lab.Common.{
  ℕ, ◌<◌, ◌≡◌, refl, sym, ap, subst, ◌∙◌, Bool, true, false, Option, none, some, List, [], ◌∷◌,
  lookup, arith, Outcome, ok, update, Option-cases,
}
use lab.Buffer.Replacer.{Replacer}
use lab.Buffer.Pool.{
  BufferPool, with_latch, fetch_page_impl, fetch_page, unpin_page_impl, unpin_page, flush_page_impl,
  flush_page, new_page_impl, new_page,
}
use lab.Buffer.Pool.Inv.{Inv, view}
use lab.Buffer.Pool.Fetch.{Fetched, fetch_page_impl-Fetched}
use lab.Buffer.Pool.Unpin.{Honest, unpin_page_impl-Unpinned}
use lab.Buffer.Pool.New.{Created, new_page_impl-Created}
use lab.Buffer.Pool.Flush.{write_frame, write_frame-view, flush_page_impl_resident}
use lab.Storage.Disk.{page_limit}

module _ (R : Replacer) {D : Type 0} (zeros : D) where
  abbrev Pool : Type 0
  Pool = BufferPool R D

  abbrev latch : Pool → Bool → Pool
  latch p b = record p { latched = b }

  -- The latch is no part of the invariant.
  latch-Inv : (p : Pool) (l : List ℕ) (b : Bool) → Inv R zeros p l → Inv R zeros (latch p b) l
  latch-Inv p l b v = record {
    holds = v.holds;
    mapped = v.mapped;
    evictable = v.evictable;
    idle = v.idle;
    free = v.free;
    free_unmapped = v.free_unmapped;
    free_distinct = v.free_distinct;
    clean = v.clean;
    file_fits = v.file_fits;
    ids_fit = v.ids_fit;
  }

  with_latch_lem :
      {A : Type 0} (body : Pool → Outcome (Pool × A)) (p q : Pool) (a : A)
      → p.latched ≡ false
      → body (latch p true) ≡ ok (q, a)
      → with_latch R zeros body p ≡ ok (latch q false, a)
  unfolding with_latch
  with_latch_lem body p q a h e = rw (h, e)

  -- What the clients can see: nothing changes, or one page does.
  pub data Effect : Type 0 where
    keep : Effect
    put : ℕ → D → Effect

  -- The memory of pages after an effect.
  abbrev pub after : (ℕ → D) → Effect → ℕ → D
  after m keep = m
  after m (put id content) = update m id content

  -- One call of a client, with its effect.
  pub data Step (p : Pool) : Effect → Pool → Type 0 where
    fetches :
        (id : ℕ) (m : Option ℕ) {q : Pool}
        → id < p.disk.next_page_id
        → fetch_page R zeros id p ≡ ok (q, m)
        → Step p keep q
    unpins :
        (id : ℕ) (dirty done : Bool) {q : Pool}
        → Honest R zeros p id dirty
        → unpin_page R zeros id dirty p ≡ ok (q, done)
        → Step p keep q
    flushes :
        (id f : ℕ) (done : Bool) {q : Pool}
        → lookup id p.page_table ≡ some f
        → flush_page R zeros id p ≡ ok (q, done)
        → Step p keep q
    creates :
        (id f : ℕ) {q : Pool}
        → p.disk.next_page_id < page_limit
        → new_page R zeros p ≡ ok (q, (id, some f))
        → Step p (put id zeros) q
    exhausts :
        (id : ℕ) {q : Pool}
        → p.disk.next_page_id < page_limit
        → new_page R zeros p ≡ ok (q, (id, none))
        → Step p keep q
    writes :
        (id f : ℕ) (content : D)
        → lookup id p.page_table ≡ some f
        → 0 < (p.pages f).pin_count
        → Step p (put id content) (write_frame R zeros p f content)

  -- A history of calls, with the effects newest first.
  pub data Steps (p : Pool) : List Effect → Pool → Type 0 where
    start : Steps p [] p
    step :
        {q r : Pool} {e : Effect} {es : List Effect}
        → Steps p es q
        → Step q e r
        → Steps p (e ∷ es) r

  -- The memory of pages after the effects.
  unfoldable pub replay : (ℕ → D) → List Effect → ℕ → D
  replay m [] = m
  replay m (e ∷ es) = after (replay m es) e

  -- The invariant with the latch open.
  pub record Open (p : Pool) : Type 0 where
    pub frames : List ℕ
    pub inv : Inv R zeros p frames
    pub unlatched : p.latched ≡ false

  abbrev Effects : Pool → Pool → Effect → Type 0
  Effects p q e = Open q × ((j : ℕ) → view R zeros q j ≡ after (view R zeros p) e j)

  module _ (p : Pool) (v : Open p) where
    -- FetchPage on an allocated page answers, and does what it promises.
    pub fetch_page-Fetched :
        (id : ℕ)
        → id < p.disk.next_page_id
        → (q : Pool) × (m : Option ℕ) × (fetch_page R zeros id p ≡ ok (q, m))
          × Open q
          × Fetched R zeros p q id m
    unfolding fetch_page view
    fetch_page-Fetched id known =
        let (q, m, l, e, w, k) =
          fetch_page_impl-Fetched R zeros (latch p true) v.frames (latch-Inv p v.frames true v.inv)
            id known in
        (
          latch q false,
          m,
          with_latch_lem (fetch_page_impl R zeros id) p q m v.unlatched e,
          record { frames = l; inv = latch-Inv q l false w; unlatched = refl },
          record {
            views = k.views;
            frame = k.frame;
            refused = k.refused;
            pinned = k.pinned;
            same_latch = sym v.unlatched;
            same_next = k.same_next;
          },
        )

    -- UnpinPage answers, and does what it promises an honest client.
    pub unpin_page-Unpinned :
        (id : ℕ) (dirty : Bool)
        → Honest R zeros p id dirty
        → (q : Pool) × (b : Bool) × (unpin_page R zeros id dirty p ≡ ok (q, b))
          × Open q
          × ((j : ℕ) → view R zeros q j ≡ view R zeros p j)
    unfolding unpin_page view
    unpin_page-Unpinned id dirty honest =
        let (q, b, l, e, w, k) =
          unpin_page_impl-Unpinned R zeros (latch p true) v.frames (latch-Inv p v.frames true v.inv)
            id dirty honest in
        (
          latch q false,
          b,
          with_latch_lem (unpin_page_impl R zeros id dirty) p q b v.unlatched e,
          record { frames = l; inv = latch-Inv q l false w; unlatched = refl },
          k.views,
        )

    flush_page_resident :
        (id f : ℕ)
        → lookup id p.page_table ≡ some f
        → (q : Pool) × (flush_page R zeros id p ≡ ok (q, true))
          × Open q
          × ((j : ℕ) → view R zeros q j ≡ view R zeros p j)
    unfolding flush_page view
    flush_page_resident id f e =
        let (q, k, w, d, views) =
          flush_page_impl_resident R zeros (latch p true) v.frames (latch-Inv p v.frames true v.inv)
            id f e in
        (
          latch q false,
          with_latch_lem (flush_page_impl R zeros id) p q true v.unlatched k,
          record { frames = v.frames; inv = latch-Inv q v.frames false w; unlatched = refl },
          views,
        )

    -- What NewPage does to the clients' pages.
    abbrev CreatedView : Pool → ℕ → Option ℕ → Type 0
    CreatedView q id none = (j : ℕ) → view R zeros q j ≡ view R zeros p j
    CreatedView q id (some f) = (j : ℕ) → view R zeros q j ≡ update (view R zeros p) id zeros j

    created_view :
        (q : Pool) (id : ℕ) (m : Option ℕ)
        → Created R zeros (latch p true) q id m
        → CreatedView (latch q false) id m
    unfolding view
    created_view q id none k = (k.refused refl).2
    created_view q id (some f) k =
        λ j. ground (arith, k.views j, k.frame f, Option-cases (lookup j q.page_table))

    new_page-CreatedView :
        p.disk.next_page_id < page_limit
        → (q : Pool) × (id : ℕ) × (m : Option ℕ) × (new_page R zeros p ≡ ok (q, (id, m)))
          × Open q
          × CreatedView q id m
    unfolding new_page
    new_page-CreatedView room =
        let (q, id, m, l, e, w, k) =
          new_page_impl-Created R zeros (latch p true) v.frames (latch-Inv p v.frames true v.inv)
            room in
        (
          latch q false,
          id,
          m,
          with_latch_lem (new_page_impl R zeros) p q (id, m) v.unlatched e,
          record { frames = l; inv = latch-Inv q l false w; unlatched = refl },
          created_view q id m k,
        )

  ok-injective : {A : Type 0} (x y : A) → ok x ≡ ok y → x ≡ y
  ok-injective x y h = ap (elim [ ok a ↦ a | _ ↦ x ]) h

  -- A call that answers has one answer.
  same_answer :
      {A : Type 0} {x : Outcome (Pool × A)} {q r : Pool} {a b : A}
      → x ≡ ok (q, a)
      → x ≡ ok (r, b)
      → (q ≡ r) × (a ≡ b)
  same_answer h k = ground arith

  -- So what is known of one answer of NewPage is known of any.
  created :
      (p q : Pool) (v : Open p) (id : ℕ) (m : Option ℕ)
      → p.disk.next_page_id < page_limit
      → new_page R zeros p ≡ ok (q, (id, m))
      → Open q × CreatedView p v q id m
  created p q v id m room h =
      let (r, j, n, e, w, k) = new_page-CreatedView p v room in
      subst (λ (x : Pool × (ℕ × Option ℕ)). Open x.0 × CreatedView p v x.0 x.1.0 x.1.1)
        (ok-injective (r, (j, n)) (q, (id, m)) (sym e ∙ h)) (w, k)

  -- Every call of a rule-abiding client keeps the invariant and has its effect, and no other.
  pub Step-Effects : {p q : Pool} {e : Effect} → Step p e q → Open p → Effects p q e
  unfolding write_frame
  Step-Effects {p} (fetches id m known h) v =
      let (q, m', e, w, k) = fetch_page-Fetched p v id known in
      subst (λ r. Effects p r keep) (same_answer e h).0 (w, k.views)
  Step-Effects {p} (unpins id dirty b honest h) v =
      let (q, b', e, w, k) = unpin_page-Unpinned p v id dirty honest in
      subst (λ r. Effects p r keep) (same_answer e h).0 (w, k)
  Step-Effects {p} (flushes id f b m h) v =
      let (q, e, w, k) = flush_page_resident p v id f m in
      subst (λ r. Effects p r keep) (same_answer e h).0 (w, k)
  Step-Effects {p} (creates id f room h) v = created p _ v id (some f) room h
  Step-Effects {p} (exhausts id room h) v = created p _ v id none room h
  Step-Effects {p} (writes id f content m pin) v =
      let (w, k) = write_frame-view R zeros p v.frames v.inv id f m content pin in
      (record { frames = v.frames; inv = w; unlatched = kept }, k)
    where
      kept : (write_frame R zeros p f content).latched ≡ false
      kept = ground (arith, v.unlatched)

  -- Over any history of rule-abiding clients the buffer pool is one memory of pages: each page
  -- holds what was last put there, through all evictions, write-backs and reads from disk.
  pub Steps-replay :
      {p q : Pool} {es : List Effect}
      → Steps p es q
      → Open p
      → Open q × ((j : ℕ) → view R zeros q j ≡ replay (view R zeros p) es j)
  unfolding replay
  Steps-replay start v = (v, λ j. refl)
  Steps-replay {p} (step {q = q} {e = e} {es = es} h s) v =
      let (w, k) = Steps-replay h v in
      let (w', k') = Step-Effects s w in
      (w', λ j. k' j ∙ ap (λ (m : ℕ → D). after m e j) (fun_ext k))
