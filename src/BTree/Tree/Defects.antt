-- ===== src/BTree/Tree/Defects.antt =====
-- FindLeafPage below an internal root (src/storage/index/b_plus_tree.cpp).
use lab.Common.{
  ℕ, zero, suc, ◌+◌, ◌<◌, List, subst, ◌≡◌, refl, sym, ap, ◌∙◌, arith, Bool, some, true, false,
  if◌then◌else◌, Outcome, ok, undefined, ◌>>=◌,
}
use lab.BTree.Order.{Comparator}
use lab.BTree.Leaf.{LeafPage}
use lab.BTree.Internal.{InternalPage}
use lab.BTree.Internal
use lab.BTree.Internal.Lookup.{lookup-IsChild}
use lab.BTree.Pages.{Pages, Node, leaf, internal, fetch, unpin}
use lab.BTree.Tree.{Tree, find_leaf_page, find_descend, lock, unlock}
use lab.BTree.Tree.Pins.{pin, fetch-pin, pin-nodes, room_pinned, unpin-pin_other}
use lab.BTree.Tree.Shape.{tree_entries, IsTree, IsInner, Bottom, Below}

-- The child that FindLeafPage goes on to.
abbrev next : {K : Type 0} → Comparator K → K → Bool → InternalPage K → Outcome ℕ
next c key left_most p = if left_most then ok (p.array 0).1 else Internal.lookup c p key

module _ {K V : Type 0} (c : Comparator K) (key : K) (left_most : Bool) where
  find_step :
      (fuel : ℕ) (u v : Tree K V) (id child : ℕ) (p : InternalPage K) (q : Pages K V)
      → u.pages.nodes id ≡ internal p
      → next c key left_most p ≡ ok child
      → fetch u.pages child ≡ some q
      → unlock (record u { pages = q }) ≡ ok v
      → find_descend c (suc fuel) u id key left_most
        ≡ find_descend c fuel (record v { pages = unpin v.pages p.page_id }) child key left_most
  unfolding find_descend
  find_step fuel u v id child p q e chosen fetched opened =
      rw (find_descend, e, chosen) (rw (◌>>=◌, fetched, opened) refl)

  -- The root latch is not held at a leaf page.
  open_at_leaf :
      (fuel : ℕ) (u : Tree K V) (id : ℕ) (l : LeafPage K V)
      → u.pages.nodes id ≡ leaf l
      → u.root_locked ≡ false
      → find_descend c (suc fuel) u id key left_most ≡ undefined
  unfolding find_descend unlock
  open_at_leaf fuel u id l e h = rw (find_descend, e, h) refl

  open_at_inner :
      (fuel : ℕ) (u : Tree K V) (id child : ℕ) (p : InternalPage K) (q : Pages K V)
      → u.pages.nodes id ≡ internal p
      → next c key left_most p ≡ ok child
      → fetch u.pages child ≡ some q
      → u.root_locked ≡ false
      → find_descend c (suc fuel) u id key left_most ≡ undefined
  unfolding find_descend unlock
  open_at_inner fuel u id child p q e chosen fetched h =
      rw (find_descend, e, chosen) (rw (◌>>=◌, fetched, h) refl)

  -- Both ways of the loop lead from a well-formed page to one of its children.
  chosen :
      (p : InternalPage K) (id : ℕ) (below : ℕ → List (K × V))
      → IsInner c p id below
      → (i : ℕ) × (next c key left_most p ≡ ok (p.array i).1) × (i < p.size)
  chosen p id below inner = by_flag left_most
    where
      by_flag :
          (b : Bool)
          → (i : ℕ) × ((if b then ok (p.array 0).1 else Internal.lookup c p key) ≡ ok (p.array i).1)
            × (i < p.size)
      by_flag true = (0, refl, omega (arith, inner.two))
      by_flag false =
          let (i, found, child) = lookup-IsChild c p key inner.keys inner.two in
          (i, found, child.in_page)

  -- Below an internal page the latch is open, and the loop unlocks it again.
  open_below :
      (fuel height id : ℕ) (u : Tree K V)
      → u.root_locked ≡ false
      → u.pages.used < u.pages.frames
      → IsTree c u.pages.nodes height id
      → find_descend c (suc fuel) u id key left_most ≡ undefined
  unfolding IsTree
  open_below fuel zero id u h room w = at_bottom (u.pages.nodes id) refl w
    where
      at_bottom :
          (n : Node K V)
          → u.pages.nodes id ≡ n
          → Bottom c id n
          → find_descend c (suc fuel) u id key left_most ≡ undefined
      at_bottom (leaf l) e w = open_at_leaf fuel u id l e h
      at_bottom (internal p) e w = absurd w
  open_below fuel (suc height) id u h room w = at_node (u.pages.nodes id) refl w
    where
      at_node :
          (n : Node K V)
          → u.pages.nodes id ≡ n
          → Below c u.pages.nodes height id n
          → find_descend c (suc fuel) u id key left_most ≡ undefined
      at_node (leaf l) e w = absurd w
      at_node (internal p) e (inner, children) =
          let (i, goes, b) = chosen p id (tree_entries u.pages.nodes height) inner in
          open_at_inner fuel u id (p.array i).1 p (pin u.pages (p.array i).1) e goes
            (fetch-pin u.pages (p.array i).1 room) h

  start :
      (fuel : ℕ) (t u : Tree K V) (root : ℕ) (q : Pages K V)
      → lock t ≡ ok u
      → u.root_page_id ≡ some root
      → fetch u.pages root ≡ some q
      → find_leaf_page c fuel t key left_most
        ≡ find_descend c fuel (record u { pages = q }) root key left_most
  unfolding find_leaf_page
  start fuel t u root q latched r fetched = simp (latched, r, fetched) refl

  module _ (t : Tree K V) (room : t.pages.used + 1 < t.pages.frames) where
    -- FindLeafPage on a well-formed tree with an internal root, its root latch open and two frames
    -- free of pinned pages, unlocks a root latch that it no longer holds, which is undefined,
    -- whichever way it goes down.
    pub find_leaf_page-undefined :
        (height fuel root : ℕ)
        → t.root_page_id ≡ some root
        → t.root_locked ≡ false
        → IsTree c t.pages.nodes (suc height) root
        → find_leaf_page c (suc (suc fuel)) t key left_most ≡ undefined
    unfolding IsTree lock unlock
    find_leaf_page-undefined height fuel root r unlatched w =
        start (suc (suc fuel)) t (record t { root_locked = true }) root (pin t.pages root)
          (latched unlatched) r (fetch-pin t.pages root (omega arith))
        ∙ at_root (t.pages.nodes root) refl w
      where
        latched : t.root_locked ≡ false → lock t ≡ ok (record t { root_locked = true })
        latched e = ground arith

        held : Tree K V
        held = record t { root_locked = true; pages = pin t.pages root }

        at_root :
            (n : Node K V)
            → t.pages.nodes root ≡ n
            → Below c t.pages.nodes height root n
            → find_descend c (suc (suc fuel)) held root key left_most ≡ undefined
        at_root (leaf l) e w = absurd w
        at_root (internal p) e (inner, children) =
            let (i, goes, b) = chosen p root (tree_entries t.pages.nodes height) inner in
            let child = (p.array i).1 in
            let q = pin (pin t.pages root) child in
            find_step (suc fuel) held (record held { root_locked = false; pages = q }) root child p
              q (ap (λ f. f root) (pin-nodes t.pages root) ∙ e) goes
              (fetch-pin (pin t.pages root) child (room_pinned t.pages root room)) refl
            ∙ ap
                (λ q.
                  find_descend c (suc fuel) (record t { root_locked = false; pages = q }) child key
                    left_most)
                (ap (unpin q) inner.own_id ∙ unpin-pin_other t.pages root child)
            ∙ open_below fuel height child
                (record t { root_locked = false; pages = pin t.pages child }) refl
                (room_pinned t.pages child room)
                (subst (λ f. IsTree c f height child) (sym (pin-nodes t.pages child))
                  (children i b).0)
