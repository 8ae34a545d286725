-- ===== src/BTree/Shrink.antt =====
-- src/storage/index/b_plus_tree.cpp: removal, with the merges and redistributions up to the root. The
-- deleted page set is a list. `misread` is the key that `LeafPage::KeyAt(0)` reads in an internal page:
-- the header of a leaf page is four bytes longer.
pub mod Root
use lab.Common.{
  ℕ, zero, suc, ◌+◌, ◌-◌, ◌/◌, Bool, true, false, none, some, List, [], ◌∷◌, ◌++◌, Outcome, ok,
  undefined, out_of_fuel, ◌>>=◌, ◌==◌, leb, ltb, if◌then◌else◌,
}
use lab.BTree.Order.{Comparator}
use lab.BTree.Leaf
use lab.BTree.Leaf.{LeafPage}
use lab.BTree.Internal
use lab.BTree.Internal.{InternalPage}
use lab.BTree.Pages.{
  Node, leaf, internal, can_fetch, fetch, unpin, delete_page, or_throw, set_node, parent_of,
  page_id_of, size_of, max_size_of, set_parent, parents, with_parents,
}
use lab.BTree.PageSet.{find_safe}
use lab.BTree.Tree.{Tree, zero_internal, lock, unlock, unlock_if}

-- The left and the right page, and the index of the right one in the parent.
abbrev pub sides : ℕ → ℕ → ℕ → ℕ × ℕ × ℕ
sides neighbor_id node_id index =
    if index == 0 then (node_id, neighbor_id, 1) else (neighbor_id, node_id, index)

module _ {K V : Type 0} where
  -- `GetMinSize`
  abbrev pub min_size_of : Node K V → ℕ
  min_size_of node = max_size_of node / 2

  -- Whether the root page goes.
  unfoldable pub adjust_root : Tree K V → ℕ → Outcome (Tree K V × Bool)
  unfolding fetch unpin
  adjust_root t id = elim (t.pages.nodes id) [
    | leaf l ↦ if l.size == 0 then ok (record t { root_page_id = none }, true) else ok (t, false)
    | internal p ↦
        let (node, new_root_id) = Internal.remove_and_return_only_child p in
        if p.size == 1
        then (elim (fetch (set_node t.pages id (internal node)) new_root_id) [
          | none ↦ undefined
          | some pages ↦
              let pages = set_node pages new_root_id (set_parent (pages.nodes new_root_id) none) in
              ok (
                record t { root_page_id = some new_root_id; pages = unpin pages new_root_id },
                true,
              )
        ])
        else ok (t, false)
  ]

  -- Coalesce before its recursion.
  unfoldable pub merge : Tree K V → ℕ → ℕ → ℕ → InternalPage K → ℕ → Outcome (Tree K V)
  unfolding can_fetch
  merge t left_id right_id ppid parent index = elim (t.pages.nodes right_id) [
    | leaf node ↦ elim (t.pages.nodes left_id) [
      | internal p ↦ undefined
      | leaf neighbor ↦
          let moved = Leaf.move_all_to node neighbor in
          ok (record t {
            pages =
                set_node
                  (set_node (set_node t.pages right_id (leaf moved.0)) left_id (leaf moved.1)) ppid
                  (internal (Internal.remove parent index));
          })
    ]
    | internal node ↦ elim (t.pages.nodes left_id) [
      | leaf l ↦ undefined
      | internal neighbor ↦ do
        (adopted, node, neighbor) ←
            Internal.move_all_to (can_fetch t.pages) (parents t.pages) node neighbor
              (parent.array index).0
        ok (record t {
          pages =
              set_node
                (set_node (set_node (with_parents t.pages adopted) right_id (internal node)) left_id
                  (internal neighbor))
                ppid (internal (Internal.remove parent index));
        })
    ]
  ]

  module _ (misread : InternalPage K → K) where
    -- The pages with their new entries, and the key for the parent. The loop that does not end has
    -- `fuel`.
    unfoldable pub shift_entry : ℕ → Tree K V → ℕ → ℕ → ℕ → Outcome (Tree K V × K)
    unfolding can_fetch
    shift_entry fuel t neighbor_id node_id index = elim (t.pages.nodes node_id) [
      | leaf node ↦ elim (t.pages.nodes neighbor_id) [
        | internal p ↦ undefined
        | leaf neighbor ↦
            let first = Leaf.move_first_to_end_of neighbor node in
            let last = Leaf.move_last_to_front_of neighbor node in
            if index == 0
            then ok (
              record t {
                pages =
                    set_node (set_node t.pages neighbor_id (leaf first.0)) node_id (leaf first.1);
              },
              (first.0.array 0).0,
            )
            else ok (
              record t {
                pages = set_node (set_node t.pages neighbor_id (leaf last.0)) node_id (leaf last.1);
              },
              (last.1.array 0).0,
            )
      ]
      | internal node ↦ elim (t.pages.nodes neighbor_id) [
        | leaf l ↦ undefined
        | internal neighbor ↦
            if index == 0
            then (Internal.move_first_to_end_of (can_fetch t.pages) (parents t.pages) neighbor node
                  (neighbor.array 1).0
                >>= λ r. ok (
                  record t {
                    pages =
                        set_node (set_node (with_parents t.pages r.0) neighbor_id (internal r.1))
                          node_id (internal r.2);
                  },
                  misread r.1,
                ))
            else (elim (Internal.move_last_to_front_of (can_fetch t.pages) fuel (parents t.pages)
                neighbor node (neighbor.array (neighbor.size - 1)).0) [
                  | none ↦ out_of_fuel
                  | some o ↦ o >>= λ r. ok (
                    record t {
                      pages =
                          set_node (set_node (with_parents t.pages r.0) neighbor_id (internal r.1))
                            node_id (internal r.2);
                    },
                    misread r.2,
                  )
                ])
      ]
    ]

    unfoldable pub redistribute : ℕ → Tree K V → ℕ → ℕ → ℕ → Outcome (Tree K V)
    unfolding fetch unpin shift_entry
    redistribute fuel t neighbor_id node_id index = elim (parent_of (t.pages.nodes node_id)) [
      | none ↦ undefined
      | some ppid ↦ do
        pages ← or_throw (fetch t.pages ppid)
        (t, key) ← shift_entry fuel (record t { pages = pages }) neighbor_id node_id index
        elim (t.pages.nodes ppid) [
          | leaf l ↦ undefined
          | internal parent ↦
              let changed = Internal.set_key_at parent (if index == 0 then 1 else index) key in
              ok (record t { pages = unpin (set_node t.pages ppid (internal changed)) ppid })
        ]
    ]

    -- The tree, and the deleted page set. Whether the page itself goes is not used.
    unfoldable pub coalesce_or_redistribute :
        (zero_key : K) → ℕ → Tree K V → ℕ → List ℕ → Outcome (Tree K V × List ℕ)
    unfolding adjust_root merge redistribute fetch unpin delete_page
    coalesce_or_redistribute zero_key zero t id deleted = out_of_fuel
    coalesce_or_redistribute zero_key (suc fuel) t id deleted =
        elim (parent_of (t.pages.nodes id)) [
          | none ↦ do
            (t, goes) ← adjust_root t id
            ok (t, if goes then deleted ++ id ∷ [] else deleted)
          | some ppid ↦ do
            pages ← or_throw (fetch t.pages ppid)
            elim (pages.nodes ppid) [
              | leaf l ↦ undefined
              | internal parent ↦ elim (Internal.value_index parent (page_id_of (pages.nodes id))) [
                | none ↦ undefined
                | some index ↦ do
                  let neighbor_id = (parent.array (if index == 0 then 1 else index - 1)).1
                  pages ← or_throw (fetch pages neighbor_id)
                  let t = record t { pages = pages }
                  let node = pages.nodes id
                  elim (leb (max_size_of node) (size_of node + size_of (pages.nodes neighbor_id))) [
                    | true ↦ do
                      t ← redistribute (suc fuel) t neighbor_id id index
                      ok (record t { pages = unpin (unpin t.pages ppid) neighbor_id }, deleted)
                    | false ↦ do
                      let (left_id, right_id, index2) = sides neighbor_id id index
                      t ← merge t left_id right_id ppid parent index2
                      let deleted = if index == 0 then deleted else deleted ++ id ∷ []
                      let above = t.pages.nodes ppid
                      (t, deleted) ← elim (ltb (size_of above) (min_size_of above)) [
                        | true ↦ coalesce_or_redistribute zero_key fuel t ppid deleted
                        | false ↦ ok (t, deleted)
                      ]
                      let pages = unpin (unpin t.pages ppid) neighbor_id
                      let wiped = internal (zero_internal zero_key)
                      ok (
                        record t {
                          pages = if index == 0 then delete_page pages wiped neighbor_id else pages;
                        },
                        deleted,
                      )
                  ]
              ]
            ]
        ]

-- `DeletePageSet->count(id) != 0`
abbrev pub is_in : ℕ → List ℕ → Bool
is_in id [] = false
is_in id (x ∷ xs) = if x == id then true else is_in id xs

-- The page set is released, and the deleted pages with it.
unfoldable pub release_deleted : {K V : Type 0} → K → Tree K V → List ℕ → List ℕ → Tree K V
unfolding unpin delete_page
release_deleted zero_key t deleted [] = t
release_deleted zero_key t deleted (id ∷ ids) =
    let pages = unpin t.pages id in
    release_deleted zero_key
      (record t {
        pages =
            if is_in id deleted
            then delete_page pages (internal (zero_internal zero_key)) id
            else pages;
      })
      deleted ids

module _ {K V : Type 0} (c : Comparator K) (misread : InternalPage K → K) (zero_key : K) where
  -- Whether a page keeps its minimal size with one entry less.
  unfoldable pub stays_full : Node K V → Bool
  stays_full node = ltb (min_size_of node) (size_of node)

  -- RemoveAndDeleteRecord on the leaf page, with what follows on a page that has become too small.
  unfoldable pub remove_from_leaf :
      ℕ → Tree K V → ℕ → LeafPage K V → K → Outcome (Tree K V × List ℕ)
  unfolding coalesce_or_redistribute
  remove_from_leaf fuel t id l key = do
    (l, size) ← Leaf.remove_and_delete_record c l key
    let t = record t { pages = set_node t.pages id (leaf l) }
    if ltb size (Leaf.min_size l)
        then coalesce_or_redistribute misread zero_key fuel t id []
        else ok (t, [])

  unfoldable pub remove : ℕ → Tree K V → K → Outcome (Tree K V)
  unfolding lock unlock unlock_if fetch find_safe stays_full remove_from_leaf release_deleted
  remove fuel t key = do
    t ← lock t
    elim t.root_page_id [
      | none ↦ unlock t
      | some root ↦ do
        pages ← or_throw (fetch t.pages root)
        (t, id, l, page_set, locked) ←
            find_safe c stays_full fuel (record t { pages = pages }) root key (root ∷ []) true
        (t, deleted) ← remove_from_leaf fuel t id l key
        unlock_if locked (release_deleted zero_key t deleted page_set)
    ]
