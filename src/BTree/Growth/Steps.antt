-- ===== src/BTree/Growth/Steps.antt =====
-- The steps of the split of a root leaf page (src/storage/index/b_plus_tree.cpp).
use lab.Common.{ℕ, suc, ◌+◌, ◌<◌, ◌≡◌, refl, arith, true, none, some, ok, ◌>>=◌, update, leb}
use lab.BTree.Order.{Comparator}
use lab.BTree.Leaf
use lab.BTree.Leaf.{LeafPage, insert_at, move_half_to, copy_n_from, init}
use lab.BTree.Internal
use lab.BTree.Internal.{InternalPage, populate_new_root, insert_loop}
use lab.BTree.Pages.{
  leaf, internal, Pages, new_page, unpin, set_node, set_parent, parent_of, page_id_of,
}
use lab.BTree.Tree.{Tree, zero_leaf, zero_internal}
use lab.BTree.Growth.{split_leaf, grow_root, insert_into_parent, add_to_leaf}

module _ {K V : Type 0} (c : Comparator K) (zero_key : K) (zero_value : V) where
  -- A new page.
  abbrev pub blank : ℕ → Tree K V → LeafPage K V
  blank pid t = Leaf.init (zero_leaf zero_key zero_value) pid none t.leaf_max_size

  abbrev pub halves : Tree K V → ℕ → LeafPage K V → LeafPage K V × LeafPage K V
  halves t pid q = Leaf.move_half_to q (blank pid t)

  abbrev pub new_root : Tree K V → ℕ → ℕ → K → ℕ → InternalPage K
  new_root t ppid left_id key right_id =
      Internal.populate_new_root
        (Internal.init (zero_internal zero_key) ppid none t.internal_max_size) left_id key right_id

  pub split_step :
      (t : Tree K V) (id : ℕ) (q : LeafPage K V) (p : Pages K V) (pid : ℕ)
      → q.parent_page_id ≡ none
      → new_page t.pages ≡ some (p, pid)
      → split_leaf c zero_key zero_value t id q
        ≡ ok (
          record t {
            pages =
                set_node (set_node p id (leaf (halves t pid q).0)) pid (leaf (halves t pid q).1);
          },
          pid,
          (halves t pid q).1,
        )
  unfolding split_leaf
  split_step t id q p pid orphan made = rw (split_leaf, made) (rw (◌>>=◌, orphan) refl)

  -- The pages after the root has grown.
  abbrev pub linked : Pages K V → ℕ → ℕ → ℕ → InternalPage K → Pages K V
  linked p ppid left_id right_id parent =
      let p1 = set_node p ppid (internal parent) in
      let p2 = set_node p1 left_id (set_parent (p1.nodes left_id) (some ppid)) in
      set_node p2 right_id (set_parent (p2.nodes right_id) (some ppid))

  pub linked-nodes :
      (p : Pages K V) (ppid left_id right_id : ℕ) (parent : InternalPage K) (l r : LeafPage K V)
      → p.nodes left_id ≡ leaf l
      → p.nodes right_id ≡ leaf r
      → left_id < right_id
      → right_id < ppid
      → ((linked p ppid left_id right_id parent).nodes ppid ≡ internal parent)
        × ((linked p ppid left_id right_id parent).nodes left_id
            ≡ leaf (record l { parent_page_id = some ppid }))
        × ((linked p ppid left_id right_id parent).nodes right_id
            ≡ leaf (record r { parent_page_id = some ppid }))
  linked-nodes p ppid left_id right_id parent l r at_left at_right a b =
      (ground arith, ground arith, ground arith)

  pub grow_step :
      (t : Tree K V) (left_id right_id : ℕ) (key : K) (p : Pages K V) (ppid : ℕ)
      → new_page t.pages ≡ some (p, ppid)
      → page_id_of (p.nodes left_id) ≡ left_id
      → page_id_of (p.nodes right_id) ≡ right_id
      → grow_root c zero_key zero_value t left_id key right_id
        ≡ ok (record t {
          root_page_id = some ppid;
          pages =
              unpin (linked p ppid left_id right_id (new_root t ppid left_id key right_id)) ppid;
        })
  unfolding grow_root
  grow_step t left_id right_id key p ppid made own_left own_right =
      rw (grow_root, made) (rw (◌>>=◌, own_left, own_right) refl)

  pub root_step :
      (fuel : ℕ) (t : Tree K V) (old_id : ℕ) (key : K) (new_id : ℕ)
      → parent_of (t.pages.nodes old_id) ≡ none
      → insert_into_parent c zero_key zero_value (suc fuel) t old_id key new_id
        ≡ grow_root c zero_key zero_value t old_id key new_id
  unfolding insert_into_parent
  root_step fuel t old_id key new_id orphan = rw (insert_into_parent, orphan) refl

  pub add_step :
      (fuel : ℕ) (t u v : Tree K V) (id pid : ℕ) (l q r : LeafPage K V) (key : K) (value : V)
      (size : ℕ)
      → Leaf.insert c l key value ≡ ok (q, size)
      → leb q.max_size size ≡ true
      → split_leaf c zero_key zero_value (record t { pages = set_node t.pages id (leaf q) }) id q
        ≡ ok (u, pid, r)
      → insert_into_parent c zero_key zero_value fuel u id (r.array 0).0 pid ≡ ok v
      → add_to_leaf c zero_key zero_value fuel t id l key value
        ≡ ok (record v { pages = unpin v.pages pid })
  unfolding add_to_leaf
  add_step fuel t u v id pid l q r key value size inserted full split grown =
      rw (add_to_leaf, inserted) (rw (◌>>=◌, full, split) (rw (◌>>=◌, grown) refl))

  pub new_page_step :
      (p : Pages K V)
      → p.used < p.frames
      → new_page p
        ≡ some (
          record p {
            next_page_id = p.next_page_id + 1;
            pins = update p.pins p.next_page_id 1;
            used = p.used + 1;
          },
          p.next_page_id,
        )
  unfolding new_page
  new_page_step p h = ground arith

  pub new_root_lem :
      (t : Tree K V) (ppid left_id right_id : ℕ) (key : K)
      → let p = new_root t ppid left_id key right_id in
        (p.size ≡ 2)
        × (p.page_id ≡ ppid)
        × ((p.array 0).1 ≡ left_id)
        × (p.array 1 ≡ (key, right_id))
  unfolding populate_new_root insert_loop Internal.init
  new_root_lem t ppid left_id right_id key = (refl, refl, ground arith, ground arith)
