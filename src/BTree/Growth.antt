-- ===== src/BTree/Growth.antt =====
-- src/storage/index/b_plus_tree.cpp: insertion, with the splits of leaf and internal pages up to a new
-- root. `transaction` is the page set; the fuel of InsertIntoParent is one unit for each level.
pub mod Pair
pub mod Steps
pub mod Halves
pub mod Split
pub mod Root
use lab.Common.{
  ℕ, zero, suc, ◌+◌, ◌-◌, Bool, true, false, not, Option, none, some, List, [], ◌∷◌, ◌++◌, Outcome,
  ok, deadlock, undefined, out_of_fuel, ◌>>=◌, ◌==◌, leb, ltb, if◌then◌else◌, update, is_some,
}
use lab.BTree.Order.{Comparator}
use lab.BTree.Leaf
use lab.BTree.Leaf.{LeafPage, invalid_index_page}
use lab.BTree.Internal
use lab.BTree.Internal.{InternalPage}
use lab.BTree.Pages.{
  Node, leaf, internal, Pages, can_fetch, fetch, unpin, new_page, or_throw, set_node, parent_of,
  page_id_of, size_of, max_size_of, set_parent, parents, with_parents,
}
use lab.BTree.PageSet.{find_safe, release_all}
use lab.BTree.Tree.{Tree, zero_leaf, zero_internal, lock, unlock, unlock_if}

module _ {K V : Type 0} (c : Comparator K) (zero_key : K) (zero_value : V) where
  unfoldable pub start_new_tree : Tree K V → K → V → Outcome (Tree K V)
  unfolding new_page unpin
  start_new_tree t key value = do
    (pages, pid) ← or_throw (new_page t.pages)
    (l, _) ←
        Leaf.insert c (Leaf.init (zero_leaf zero_key zero_value) pid none t.leaf_max_size) key value
    ok (record t { root_page_id = some pid; pages = unpin (set_node pages pid (leaf l)) pid })

  -- Whether a page stays below its maximal size with one more entry.
  unfoldable pub is_safe : Node K V → Bool
  is_safe node = ltb (size_of node + 1) (max_size_of node)

  -- Split of a leaf page, and of an internal page: the id of the new page.
  unfoldable pub split_leaf : Tree K V → ℕ → LeafPage K V → Outcome (Tree K V × ℕ × LeafPage K V)
  unfolding new_page
  split_leaf t id node = do
    (pages, pid) ← or_throw (new_page t.pages)
    let recipient =
        Leaf.init (zero_leaf zero_key zero_value) pid node.parent_page_id t.leaf_max_size
    let halves = Leaf.move_half_to node recipient
    ok (
      record t { pages = set_node (set_node pages id (leaf halves.0)) pid (leaf halves.1) },
      pid,
      halves.1,
    )

  unfoldable pub split_internal :
      Tree K V → ℕ → InternalPage K → Outcome (Tree K V × ℕ × InternalPage K)
  unfolding new_page can_fetch
  split_internal t id node = do
    (pages, pid) ← or_throw (new_page t.pages)
    let recipient =
        Internal.init (zero_internal zero_key) pid node.parent_page_id t.internal_max_size
    (adopted, node, recipient) ←
        Internal.move_half_to (can_fetch pages) (parents pages) node recipient
    ok (
      record t {
        pages =
            set_node (set_node (with_parents pages adopted) id (internal node)) pid
              (internal recipient);
      },
      pid,
      recipient,
    )

  -- The branch of InsertIntoParent for a root that was split.
  unfoldable pub grow_root : Tree K V → ℕ → K → ℕ → Outcome (Tree K V)
  unfolding new_page unpin
  grow_root t old_id key new_id = do
    (pages, ppid) ← or_throw (new_page t.pages)
    let old_page_id = page_id_of (pages.nodes old_id)
    let new_page_id = page_id_of (pages.nodes new_id)
    let parent =
        Internal.populate_new_root
          (Internal.init (zero_internal zero_key) ppid none t.internal_max_size) old_page_id key
          new_page_id
    let pages = set_node pages ppid (internal parent)
    let pages = set_node pages old_id (set_parent (pages.nodes old_id) (some ppid))
    let pages = set_node pages new_id (set_parent (pages.nodes new_id) (some ppid))
    ok (record t { root_page_id = some ppid; pages = unpin pages ppid })

  -- At its end the source unpins the old node, where it has fetched the parent.
  unfoldable pub insert_into_parent : ℕ → Tree K V → ℕ → K → ℕ → Outcome (Tree K V)
  unfolding grow_root split_internal fetch unpin
  insert_into_parent zero t old_id key new_id = out_of_fuel
  insert_into_parent (suc fuel) t old_id key new_id = elim (parent_of (t.pages.nodes old_id)) [
    | none ↦ grow_root t old_id key new_id
    | some ppid ↦ do
      pages ← or_throw (fetch t.pages ppid)
      let old_page_id = page_id_of (pages.nodes old_id)
      let new_page_id = page_id_of (pages.nodes new_id)
      elim (pages.nodes ppid) [
        | leaf l ↦ undefined
        | internal p ↦ do
          let (parent, size) = Internal.insert_node_after p old_page_id key new_page_id
          let t = record t { pages = set_node pages ppid (internal parent) }
          t ← elim (leb t.internal_max_size size) [
            | true ↦ do
              (t, split_id, recipient) ← split_internal t ppid parent
              t ← insert_into_parent fuel t ppid (recipient.array 0).0 split_id
              ok (record t { pages = unpin t.pages split_id })
            | false ↦ ok t
          ]
          ok (record t { pages = unpin t.pages old_page_id })
      ]
  ]

  -- InsertIntoLeaf once the leaf is found and does not have the key.
  unfoldable pub add_to_leaf : ℕ → Tree K V → ℕ → LeafPage K V → K → V → Outcome (Tree K V)
  unfolding split_leaf insert_into_parent unpin
  add_to_leaf fuel t id l key value = do
    (l, size) ← Leaf.insert c l key value
    let t = record t { pages = set_node t.pages id (leaf l) }
    elim (leb l.max_size size) [
      | true ↦ do
        (t, new_id, recipient) ← split_leaf t id l
        t ← insert_into_parent fuel t id (recipient.array 0).0 new_id
        ok (record t { pages = unpin t.pages new_id })
      | false ↦ ok t
    ]

  unfoldable pub insert_into_leaf : ℕ → Tree K V → K → V → Outcome (Tree K V × Bool)
  unfolding fetch find_safe is_safe add_to_leaf release_all unlock_if
  insert_into_leaf fuel t key value = elim t.root_page_id [
    | none ↦ undefined
    | some root ↦ do
      pages ← or_throw (fetch t.pages root)
      (t, id, l, page_set, locked) ←
          find_safe c is_safe fuel (record t { pages = pages }) root key (root ∷ []) true
      found ← Leaf.lookup c l key
      t ← if is_some found then ok t else add_to_leaf fuel t id l key value
      t ← unlock_if locked (release_all t page_set)
      ok (t, not (is_some found))
  ]

  unfoldable pub insert : ℕ → Tree K V → K → V → Outcome (Tree K V × Bool)
  unfolding lock unlock start_new_tree insert_into_leaf
  insert fuel t key value = do
    t ← lock t
    elim t.root_page_id [
      | none ↦ do t ← start_new_tree t key value; t ← unlock t; ok (t, true)
      | some root ↦ insert_into_leaf fuel t key value
    ]
