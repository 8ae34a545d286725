-- ===== src/BTree/Tree.antt =====
-- src/storage/index/b_plus_tree.cpp: the state of the tree and its searches. One operation runs at a time: the latches of
-- the pages are left out, and `root_Latch_` is kept, which a thread may not lock twice nor unlock while
-- it is open. A pointer to a page is its id. The loops and the recursion take fuel, one unit for each
-- level of the tree.
pub mod Pins
pub mod Shape
pub mod Search
pub mod Defects
mod Tests
use lab.Common.{
  ℕ, zero, suc, ◌+◌, ◌-◌, Bool, true, false, not, Option, none, some, List, [], ◌∷◌, ◌++◌, Outcome,
  ok, deadlock, undefined, out_of_fuel, ◌>>=◌, ◌==◌, leb, ltb, if◌then◌else◌, update, is_some,
}
use lab.BTree.Order.{Comparator}
use lab.BTree.Leaf
use lab.BTree.Leaf.{LeafPage, invalid_index_page}
use lab.BTree.Internal
use lab.BTree.Internal.{InternalPage}
use lab.BTree.Pages.{
  Node, leaf, internal, Pages, can_fetch, fetch, unpin, new_page, or_throw, set_node, parent_of,
  page_id_of, size_of, max_size_of, set_parent, parents, with_parents,
}

pub record Tree (K V : Type 0) : Type 0 where
  pub root_page_id : Option ℕ
  pub leaf_max_size : ℕ
  pub internal_max_size : ℕ
  pub root_locked : Bool
  pub pages : Pages K V

-- A page of NewPage is all zeros.
abbrev pub zero_internal : {K : Type 0} → K → InternalPage K
zero_internal zero_key = record {
  page_type = invalid_index_page;
  size = 0;
  max_size = 0;
  parent_page_id = some 0;
  page_id = 0;
  array = λ _. (zero_key, 0);
}

module _ {K V : Type 0} where
  -- A page of NewPage is all zeros.
  abbrev pub zero_leaf : K → V → LeafPage K V
  zero_leaf zero_key zero_value = record {
    page_type = invalid_index_page;
    size = 0;
    max_size = 0;
    parent_page_id = some 0;
    page_id = 0;
    next_page_id = some 0;
    array = λ _. (zero_key, zero_value);
  }

  unfoldable pub init : ℕ → ℕ → Pages K V → Tree K V
  init leaf_max_size internal_max_size pages = record {
    root_page_id = none;
    leaf_max_size = leaf_max_size;
    internal_max_size = internal_max_size;
    root_locked = false;
    pages = pages;
  }

  -- `root_Latch_`
  unfoldable pub lock : Tree K V → Outcome (Tree K V)
  lock t = if t.root_locked then deadlock else ok (record t { root_locked = true })

  unfoldable pub unlock : Tree K V → Outcome (Tree K V)
  unlock t = if t.root_locked then ok (record t { root_locked = false }) else undefined

  -- `if (locked) root_Latch_.unlock();`
  unfoldable pub unlock_if : Bool → Tree K V → Outcome (Tree K V)
  unfolding unlock
  unlock_if locked t = if locked then unlock t else ok t

module _ {K V : Type 0} (c : Comparator K) where
  -- The loop of GetValue from the page `id` on; `locked` is `root_isLocked`.
  unfoldable pub descend :
      ℕ → Tree K V → ℕ → K → Bool → Outcome (Tree K V × ℕ × LeafPage K V × Bool)
  unfolding unlock_if fetch unpin
  descend zero t id key locked = out_of_fuel
  descend (suc fuel) t id key locked = elim (t.pages.nodes id) [
    | leaf l ↦ ok (t, id, l, locked)
    | internal p ↦ do
      child ← Internal.lookup c p key
      pages ← or_throw (fetch t.pages child)
      let is_root = not (is_some p.parent_page_id)
      t ← unlock_if is_root (record t { pages = pages })
      descend fuel (record t { pages = unpin t.pages p.page_id }) child key
          (if is_root then false else locked)
  ]

  -- The value, if the tree has the key.
  unfoldable pub get_value : ℕ → Tree K V → K → Outcome (Tree K V × Option V)
  unfolding lock unlock unlock_if descend fetch unpin
  get_value fuel t key = do
    t ← lock t
    elim t.root_page_id [
      | none ↦ do t ← unlock t; ok (t, none)
      | some root ↦ do
        pages ← or_throw (fetch t.pages root)
        (t, id, l, locked) ← descend fuel (record t { pages = pages }) root key true
        found ← Leaf.lookup c l key
        t ← unlock_if locked (record t { pages = unpin t.pages id })
        ok (t, found)
    ]

  -- The loop of FindLeafPage: `root_isLocked` stays true.
  unfoldable pub find_descend : ℕ → Tree K V → ℕ → K → Bool → Outcome (Tree K V × Option ℕ)
  unfolding unlock fetch unpin
  find_descend zero t id key left_most = out_of_fuel
  find_descend (suc fuel) t id key left_most = elim (t.pages.nodes id) [
    | leaf l ↦ do t ← unlock t; ok (t, some id)
    | internal p ↦ do
      child ← if left_most then ok (p.array 0).1 else Internal.lookup c p key
      elim (fetch t.pages child) [
        | none ↦ ok (t, none)
        | some pages ↦ do
          t ← unlock (record t { pages = pages })
          find_descend fuel (record t { pages = unpin t.pages p.page_id }) child key left_most
      ]
  ]

  -- The leaf page is still pinned. On an empty tree the source fetches INVALID_PAGE_ID.
  unfoldable pub find_leaf_page : ℕ → Tree K V → K → Bool → Outcome (Tree K V × Option ℕ)
  unfolding lock find_descend fetch
  find_leaf_page fuel t key left_most = do
    t ← lock t
    elim t.root_page_id [
      | none ↦ undefined
      | some root ↦ elim (fetch t.pages root) [
        | none ↦ ok (t, none)
        | some pages ↦ find_descend fuel (record t { pages = pages }) root key left_most
      ]
    ]
