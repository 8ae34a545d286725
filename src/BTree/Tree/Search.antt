-- ===== src/BTree/Tree/Search.antt =====
-- GetValue on a well-formed tree.
use lab.Common.{
  ℕ, zero, suc, ◌+◌, ◌<◌, ◌≡◌, ◌≢◌, refl, sym, ap, ◌∙◌, List, arith, Bool, Option, none, some, inl,
  inr, Bool-cases, true, false, if◌then◌else◌, ok, ltb, is_some, not,
}
use lab.BTree.Order.{Comparator}
use lab.BTree.Sorted.{find_entry}
use lab.BTree.Leaf.{LeafPage}
use lab.BTree.Leaf
use lab.BTree.Leaf.Contents.{contents, IsSorted}
use lab.BTree.Leaf.Lookup.{lookup-find_entry}
use lab.BTree.Internal.{InternalPage}
use lab.BTree.Internal
use lab.BTree.Internal.Lookup.{IsChild, lookup-IsChild}
use lab.BTree.Pages.{Pages, Node, leaf, internal, parent_of, fetch, unpin}
use lab.BTree.Tree.{Tree, get_value, descend, unlock_if, lock, unlock}
use lab.BTree.Tree.Pins.{pin, fetch-pin, pin-nodes, room_pinned, unpin-pin, unpin-pin_other}
use lab.BTree.Tree.Shape.{tree_entries, IsTree, Bottom, Below, IsInner, find_entry-join}

module _ {K V : Type 0} (c : Comparator K) where
  -- Only the child for a key can have it.
  not_below :
      (p : InternalPage K) (id : ℕ) (below : ℕ → List (K × V))
      → IsInner c p id below
      → (key : K) (i j : ℕ) → IsChild c p key i
      → j < p.size
      → j ≢ i
      → find_entry c key (below (p.array j).1) ≡ none
  not_below p id below inner key i j child l d =
      by_answer (find_entry c key (below (p.array j).1)) refl
    where
      same : IsChild c p key j → j ≡ i
      same other = elim (Bool-cases (ltb j i)) [
        | inl before ↦ absurd (
            child.at_most (j + 1) (omega arith) (ground arith)
              (other.larger (j + 1) (omega arith) (ground (arith, child.in_page))))
        | inr after ↦ elim (Bool-cases (ltb i j)) [
          | inl behind ↦ absurd (
              other.at_most (i + 1) (omega arith) (ground arith)
                (child.larger (i + 1) (omega arith) (ground (arith, other.in_page))))
          | inr here ↦ ground arith
        ]
      ]

      by_answer :
          (o : Option V)
          → find_entry c key (below (p.array j).1) ≡ o
          → find_entry c key (below (p.array j).1) ≡ none
      by_answer none e = e
      by_answer (some value) e = absurd (d (same (inner.in_range j key value l e)))

  -- The loop from an internal page to the child for the key.
  descend_step :
      (fuel : ℕ) (u : Tree K V) (id : ℕ) (key : K) (locked : Bool) (p : InternalPage K) (child : ℕ)
      (q : Pages K V) (held : Bool)
      → u.pages.nodes id ≡ internal p
      → Internal.lookup c p key ≡ ok child
      → fetch u.pages child ≡ some q
      → unlock_if (not (is_some p.parent_page_id)) (record u { pages = q })
        ≡ ok (record u { pages = q; root_locked = held })
      → (if not (is_some p.parent_page_id) then false else locked) ≡ held
      → descend c (suc fuel) u id key locked
        ≡ descend c fuel (record u { pages = unpin q p.page_id; root_locked = held }) child key held
  unfolding descend
  descend_step fuel u id key locked p child q held e found fetched opened h =
      rw (descend, e, found, fetched, opened, h) refl

  at_a_leaf :
      (fuel : ℕ) (u : Tree K V) (id : ℕ) (key : K) (locked : Bool) (l : LeafPage K V)
      → u.pages.nodes id ≡ leaf l
      → descend c (suc fuel) u id key locked ≡ ok (u, id, l, locked)
  unfolding descend
  at_a_leaf fuel u id key locked l e = rw (descend, e) refl

  get_value_steps :
      (fuel : ℕ) (t u v w : Tree K V) (root : ℕ) (key : K) (q : Pages K V) (id : ℕ)
      (l : LeafPage K V) (held : Bool) (found : Option V)
      → lock t ≡ ok u
      → u.root_page_id ≡ some root
      → fetch u.pages root ≡ some q
      → descend c fuel (record u { pages = q }) root key true ≡ ok (v, id, l, held)
      → Leaf.lookup c l key ≡ ok found
      → unlock_if held (record v { pages = unpin v.pages id }) ≡ ok w
      → get_value c fuel t key ≡ ok (w, found)
  unfolding get_value
  get_value_steps fuel t u v w root key q id l held found latched r fetched arrived answer
        released =
      rw (latched, r, fetched, arrived, answer, released) refl

  -- The root latch is given back below the root.
  unlocked :
      (u : Tree K V) (parent : Option ℕ) (locked : Bool)
      → (parent ≡ none → locked ≡ true)
      → u.root_locked ≡ locked
      → let held = if not (is_some parent) then false else locked in
        unlock_if (not (is_some parent)) u ≡ ok (record u { root_locked = held })
  unfolding unlock_if unlock is_some
  unlocked u none locked h e = rw (e, h refl) refl
  unlocked u (some parent) locked h e = ap (λ b. ok (record u { root_locked = b })) e

  module _ (t : Tree K V) (key : K) where
    -- The tree while a page is pinned and the root latch is held or not.
    abbrev at : ℕ → Bool → Tree K V
    at id locked = record t { pages = pin t.pages id; root_locked = locked }

    record Arrives (fuel height id : ℕ) (locked : Bool) : Type 0 where
      leaf_id : ℕ
      page : LeafPage K V
      held : Bool
      arrived :
          descend c fuel (at id locked) id key locked ≡ ok (at leaf_id held, leaf_id, page, held)
      some_entry : 0 < page.size
      sorted : IsSorted c page
      same :
          find_entry c key (contents page) ≡ find_entry c key (tree_entries t.pages.nodes height id)

    module _ (room : t.pages.used + 1 < t.pages.frames) where
      one_level :
          (fuel id : ℕ) (locked : Bool) (p : InternalPage K) (child : ℕ)
          → t.pages.nodes id ≡ internal p
          → Internal.lookup c p key ≡ ok child
          → p.page_id ≡ id
          → (p.parent_page_id ≡ none → locked ≡ true)
          → (held : Bool) × (descend c (suc fuel) (at id locked) id key locked
              ≡ descend c fuel (at child held) child key held)
      one_level fuel id locked p child e found own h =
          let held = if not (is_some p.parent_page_id) then false else locked in
          (
            held,
            descend_step fuel (at id locked) id key locked p child (pin (pin t.pages id) child) held
                  (ap (λ f. f id) (pin-nodes t.pages id) ∙ e) found
                  (fetch-pin (pin t.pages id) child (room_pinned t.pages id room))
                  (unlocked (record t { pages = pin (pin t.pages id) child; root_locked = locked })
                    p.parent_page_id locked h refl)
                  refl
                ∙ ap
                    (λ q.
                      descend c fuel (record t { pages = q; root_locked = held }) child key held)
                    (ap (unpin (pin (pin t.pages id) child)) own
                      ∙ unpin-pin_other t.pages id child),
          )

      leaf_entries :
          (id : ℕ) (l : LeafPage K V)
          → t.pages.nodes id ≡ leaf l
          → find_entry c key (tree_entries t.pages.nodes 0 id) ≡ find_entry c key (contents l)
      unfolding tree_entries
      leaf_entries id l e = rw (tree_entries, e) refl

      at_leaf :
          (fuel id : ℕ) (locked : Bool) (n : Node K V)
          → t.pages.nodes id ≡ n
          → Bottom c id n
          → Arrives (suc fuel) 0 id locked
      at_leaf fuel id locked (internal p) e w = absurd w
      at_leaf fuel id locked (leaf l) e w = record {
        leaf_id = id;
        page = l;
        held = locked;
        arrived =
            at_a_leaf fuel (at id locked) id key locked l
              (ap (λ f. f id) (pin-nodes t.pages id) ∙ e);
        some_entry = w.some_entry;
        sorted = w.sorted;
        same = sym (leaf_entries id l e);
      }

      in_child :
          (id height : ℕ) (p : InternalPage K)
          → t.pages.nodes id ≡ internal p
          → IsInner c p id (tree_entries t.pages.nodes height)
          → (i : ℕ) → IsChild c p key i
          → find_entry c key (tree_entries t.pages.nodes (suc height) id)
            ≡ find_entry c key (tree_entries t.pages.nodes height (p.array i).1)
      unfolding tree_entries
      in_child id height p e inner i child =
          rw (tree_entries, e)
            (find_entry-join c key (λ i. tree_entries t.pages.nodes height (p.array i).1) i 0 p.size
              (omega arith) (omega (arith, child.in_page))
              (λ j a b.
                not_below p id (tree_entries t.pages.nodes height) inner key i j child
                  (omega arith)))

      -- From an internal page, if the loop arrives from each child.
      at_inner :
          (fuel height id : ℕ) (locked : Bool)
          → ((child : ℕ) (held : Bool)
              → IsTree c t.pages.nodes height child
              → (parent_of (t.pages.nodes child) ≡ none → held ≡ true)
              → Arrives fuel height child held)
          → (n : Node K V) → t.pages.nodes id ≡ n
          → Below c t.pages.nodes height id n
          → (parent_of n ≡ none → locked ≡ true)
          → Arrives (suc fuel) (suc height) id locked
      at_inner fuel height id locked go (leaf l) e w h = absurd w
      at_inner fuel height id locked go (internal p) e (inner, children) h =
          let (i, found, child) = lookup-IsChild c p key inner.keys inner.two in
          let (held, step) = one_level fuel id locked p (p.array i).1 e found inner.own_id h in
          let (below, parent) = children i child.in_page in
          let arrives = go (p.array i).1 held below (λ orphan. cc) in
          record {
            leaf_id = arrives.leaf_id;
            page = arrives.page;
            held = arrives.held;
            arrived = step ∙ arrives.arrived;
            some_entry = arrives.some_entry;
            sorted = arrives.sorted;
            same = arrives.same ∙ sym (in_child id height p e inner i child);
          }

      -- The loop arrives at the leaf page that has what the tree has.
      descend-Arrives :
          (fuel height id : ℕ) (locked : Bool)
          → height < fuel
          → IsTree c t.pages.nodes height id
          → (parent_of (t.pages.nodes id) ≡ none → locked ≡ true)
          → Arrives fuel height id locked
      unfolding IsTree
      descend-Arrives zero height id locked b w h = absurd (omega arith)
      descend-Arrives (suc fuel) zero id locked b w h =
          at_leaf fuel id locked (t.pages.nodes id) refl w
      descend-Arrives (suc fuel) (suc height) id locked b w h =
          at_inner fuel height id locked
            (λ child held. descend-Arrives fuel height child held (omega arith)) (t.pages.nodes id)
            refl w h

      -- The end of GetValue, from the leaf page.
      released :
          (leaf_id : ℕ) (held : Bool)
          → t.root_locked ≡ false
          → unlock_if held
              (record (at leaf_id held) { pages = unpin (pin t.pages leaf_id) leaf_id })
            ≡ ok t
      unfolding unlock_if unlock
      released leaf_id true e =
          λ i. ok (record t { pages = unpin-pin t.pages leaf_id i; root_locked = sym e i })
      released leaf_id false e =
          λ i. ok (record t { pages = unpin-pin t.pages leaf_id i; root_locked = sym e i })

      -- GetValue on a well-formed tree of any height, with the root latch open, two frames free of
      -- pinned pages and more fuel than the height, returns what a walk along the entries of the tree
      -- finds, and leaves the tree as it was, its pins and its root latch included.
      pub get_value-find_entry :
          (height fuel root : ℕ)
          → t.root_page_id ≡ some root
          → t.root_locked ≡ false
          → height < fuel
          → IsTree c t.pages.nodes height root
          → get_value c fuel t key
            ≡ ok (t, find_entry c key (tree_entries t.pages.nodes height root))
      unfolding lock
      get_value-find_entry height fuel root r unlatched b w =
          let arrives = descend-Arrives fuel height root true b w (λ e. refl) in
          get_value_steps fuel t (record t { root_locked = true }) (at arrives.leaf_id arrives.held)
            t root key (pin t.pages root) arrives.leaf_id arrives.page arrives.held _
            (latched unlatched) r (fetch-pin t.pages root (omega arith)) arrives.arrived
            (lookup-find_entry c arrives.page key arrives.sorted arrives.some_entry
              ∙ ap (λ f. ok f) arrives.same)
            (released arrives.leaf_id arrives.held unlatched)
        where
          latched : t.root_locked ≡ false → lock t ≡ ok (record t { root_locked = true })
          latched e = ground arith
