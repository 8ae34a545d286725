-- ===== src/BTree/Growth/Root.antt =====
-- Insert into a tree whose root is a leaf page (src/storage/index/b_plus_tree.cpp).
use Prim.Native.Nat.{eq}
use lab.Common.{
  ℕ, suc, ◌+◌, ◌≤◌, ◌<◌, ◌≡◌, ◌≢◌, refl, subst, sym, ap, ◌∙◌, arith, Bool, true, false, none, some,
  Outcome, ok, ◌>>=◌, leb, Bool-cases, inl, inr, is_some,
}
use lab.BTree.Order.{Comparator, zero?}
use lab.BTree.Sorted.{
  insert_entry, find_entry, find_entry-insert_entry, find_entry-insert_entry_other,
}
use lab.BTree.Leaf
use lab.BTree.Leaf.{LeafPage}
use lab.BTree.Leaf.Lookup.{is_zero}
use lab.BTree.Leaf.Contents.{contents, IsSorted, search-IsPosition}
use lab.BTree.Leaf.Ordered.{Absent}
use lab.BTree.Pages.{leaf, Pages, fetch, unpin}
use lab.BTree.PageSet.{find_safe, release_all}
use lab.BTree.Tree.Search.{get_value-find_entry}
use lab.BTree.Tree.{Tree, get_value, lock, unlock, unlock_if}
use lab.BTree.Tree.Pins.{unpin-nodes, unpin_back, pin, fetch-pin, pin-nodes}
use lab.BTree.Tree.Shape.{tree_entries, IsTree}
use lab.BTree.Growth.{add_to_leaf, insert, insert_into_leaf}
use lab.BTree.Growth.Split.{split_root, keep_root}

module _ {K V : Type 0} (c : Comparator K) (zero_key : K) (zero_value : V) where
  lookup-none :
      (l : LeafPage K V) (key : K) (up : IsSorted c l)
      → 0 < l.size
      → Absent c l key up
      → Leaf.lookup c l key ≡ ok none
  unfolding Leaf.lookup
  lookup-none l key up n absent =
      let (r, e, k) = search-IsPosition c l key up n in
      elim (Bool-cases (zero? (c.comparator (l.array r).0 key))) [
        | inl same ↦ absurd (absent r (omega (arith, k.to_last)) (is_zero _ same))
        | inr differ ↦ rw (Leaf.lookup, e) (rw differ refl)
      ]

  leaf_steps :
      (fuel : ℕ) (t1 u w : Tree K V) (root : ℕ) (q : Pages K V) (l : LeafPage K V) (key : K)
      (value : V)
      → t1.root_page_id ≡ some root
      → fetch t1.pages root ≡ some q
      → q.nodes root ≡ leaf l
      → Leaf.lookup c l key ≡ ok none
      → add_to_leaf c zero_key zero_value (suc fuel) (record t1 { pages = q }) root l key value
        ≡ ok u
      → unlock (record u { pages = unpin u.pages root }) ≡ ok w
      → insert_into_leaf c zero_key zero_value (suc fuel) t1 key value ≡ ok (w, true)
  unfolding insert_into_leaf find_safe release_all unlock_if is_some
  leaf_steps fuel t1 u w root q l key value r fetched at_root missing added opened =
      simp (insert_into_leaf, r, fetched, find_safe, at_root, missing, added, opened) refl

  insert_steps :
      (fuel : ℕ) (t t1 : Tree K V) (root : ℕ) (key : K) (value : V) (o : Outcome (Tree K V × Bool))
      → lock t ≡ ok t1
      → t1.root_page_id ≡ some root
      → insert_into_leaf c zero_key zero_value (suc fuel) t1 key value ≡ o
      → insert c zero_key zero_value (suc fuel) t key value ≡ o
  unfolding insert
  insert_steps fuel t t1 root key value o latched r rest = rw (insert, latched) (rw (◌>>=◌, r) rest)

  unlock_held :
      (u : Tree K V) → u.root_locked ≡ true → unlock u ≡ ok (record u { root_locked = false })
  unfolding unlock
  unlock_held u h = ground arith

  lock_open : (t : Tree K V) → t.root_locked ≡ false → lock t ≡ ok (record t { root_locked = true })
  unfolding lock
  lock_open t h = ground arith

  module _ (t : Tree K V) (root : ℕ) (l : LeafPage K V) (key : K) (value : V) where
    -- A tree with its root latch open that has the entries of the page with the new one.
    pub record Grown (u : Tree K V) : Type 0 where
      pub unlatched : u.root_locked ≡ false
      pub height : ℕ
      pub low : height ≤ 1
      pub root_id : ℕ
      pub same_pins : (u.pages.frames ≡ t.pages.frames) × (u.pages.used ≡ t.pages.used)
      pub at_root : u.root_page_id ≡ some root_id
      pub shape : IsTree c u.pages.nodes height root_id
      pub listed : tree_entries u.pages.nodes height root_id ≡ insert_entry c key value (contents l)

    abbrev held : Tree K V
    held = record t { root_locked = true; pages = pin t.pages root }

    -- The page set is released and the root latch unlocked.
    finish :
        (u : Tree K V) (height root_id : ℕ)
        → height ≤ 1
        → u.root_locked ≡ true
        → u.root_page_id ≡ some root_id
        → (u.pages.frames ≡ held.pages.frames)
          × (u.pages.used ≡ held.pages.used)
          × (u.pages.pins root ≡ held.pages.pins root)
        → IsTree c u.pages.nodes height root_id
        → tree_entries u.pages.nodes height root_id ≡ insert_entry c key value (contents l)
        → (w : Tree K V) × (unlock (record u { pages = unpin u.pages root }) ≡ ok w) × Grown w
    finish u height root_id low latched r (frames, used, pins) shape listed = (
      record u { pages = unpin u.pages root; root_locked = false },
      unlock_held (record u { pages = unpin u.pages root }) latched,
      record {
        unlatched = refl;
        height = height;
        low = low;
        root_id = root_id;
        same_pins = unpin_back t.pages u.pages root frames used pins;
        at_root = r;
        shape = subst (λ f. IsTree c f height root_id) (sym (unpin-nodes u.pages root)) shape;
        listed = ap (λ f. tree_entries f height root_id) (unpin-nodes u.pages root) ∙ listed;
      },
    )

    module _ (r : t.root_page_id ≡ some root) (open_latch : t.root_locked ≡ false)
        (e : t.pages.nodes root ≡ leaf l) (own : l.page_id ≡ root)
        (orphan : l.parent_page_id ≡ none) (fresh : root < t.pages.next_page_id)
        (room : t.pages.used + 2 < t.pages.frames) (up : IsSorted c l) (n : 0 < l.size)
        (absent : Absent c l key up) where
      added :
          (fuel : ℕ)
          → (u : Tree K V) × (w : Tree K V) × (add_to_leaf c zero_key zero_value
                (suc fuel)
                held
                root
                l
                key
                value
              ≡ ok u)
            × (unlock (record u { pages = unpin u.pages root }) ≡ ok w)
            × Grown w
      unfolding pin
      added fuel = elim (Bool-cases (leb l.max_size (l.size + 1))) [
        | inl full ↦
            let (u, id, done, at, latched, counted, shape, listed) =
              split_root c zero_key zero_value held root l key value up n absent fuel own orphan
                (ground arith) fresh (ground arith) in
            let (w, opened, grown) = finish u 1 id (omega arith) latched at counted shape listed in
            (u, w, done, opened, grown)
        | inr fits ↦
            let (u, done, at, latched, counted, shape, listed) =
              keep_root c zero_key zero_value held root l key value up n absent (suc fuel) own
                (ground arith) in
            let (w, opened, grown) =
              finish u 0 root (omega arith) latched (at ∙ r) counted shape listed in
            (u, w, done, opened, grown)
      ]

      -- Insert of a key that is not there into a tree whose root is a leaf page with sorted keys that
      -- is not empty, has its own id below the next page id and no parent, with the root latch open
      -- and three frames free of pinned pages, answers true. It leaves a well-formed tree of height 0
      -- or 1, whether or not the page is split, with the root latch open and as many frames of pinned
      -- pages as before, and its entries are those of an insertion into the sorted list.
      pub insert-Grown :
          (fuel : ℕ)
          → (w : Tree K V) × (insert c zero_key zero_value (suc fuel) t key value ≡ ok (w, true))
            × Grown w
      insert-Grown fuel =
          let (u, w, done, opened, grown) = added fuel in
          (
            w,
            insert_steps fuel t (record t { root_locked = true }) root key value (ok (w, true))
                (lock_open t open_latch) r
                (leaf_steps fuel (record t { root_locked = true }) u w root (pin t.pages root) l key
                  value r (fetch-pin t.pages root (omega arith))
                  (ap (λ f. f root) (pin-nodes t.pages root) ∙ e) (lookup-none l key up n absent)
                  done opened),
            grown,
          )

      -- A value that Insert has put, under a key that is not there, into a tree whose root is a leaf
      -- page with sorted keys that is not empty, has its own id below the next page id and no parent,
      -- with the root latch open and three frames free of pinned pages, is found by GetValue, and
      -- GetValue finds for every other key what the page had.
      pub get_value-insert :
          (fuel : ℕ)
          → (w : Tree K V) × (insert c zero_key zero_value (suc fuel) t key value ≡ ok (w, true))
            × (get_value c 2 w key ≡ ok (w, some value))
            × ((other : K)
                → c.comparator key other ≢ eq
                → get_value c 2 w other ≡ ok (w, find_entry c other (contents l)))
      get_value-insert fuel =
          let (w, done, grown) = insert-Grown fuel in
          let free : w.pages.used + 1 < w.pages.frames = omega (arith, grown.same_pins) in
          let look : (k : K)
              → get_value c 2 w k ≡ ok (w, find_entry c k (insert_entry c key value (contents l))) =
            λ k.
              get_value-find_entry c w k free grown.height 2 grown.root_id grown.at_root
                grown.unlatched (omega (arith, grown.low)) grown.shape
              ∙ ap (λ es. ok (w, find_entry c k es)) grown.listed in
          (
            w,
            done,
            look key ∙ ap (λ o. ok (w, o)) (find_entry-insert_entry c key value (contents l)),
            λ other d.
                look other
                ∙ ap (λ o. ok (w, o))
                    (find_entry-insert_entry_other c key other value (contents l) d),
          )
