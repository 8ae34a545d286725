-- ===== src/BTree/Iterator.antt =====
-- src/storage/index/index_iterator.cpp, and begin, Begin and end of src/storage/index/b_plus_tree.cpp.
-- The iterator keeps its page pinned, and `node_` is the contents of that page. A page that cannot be
-- fetched is a null pointer.
pub mod Scan
use lab.Common.{
  ℕ, zero, suc, ◌+◌, ◌-◌, Bool, true, false, Option, none, some, List, [], ◌∷◌, Outcome, ok,
  undefined, out_of_fuel, ◌>>=◌, ◌==◌, leb, if◌then◌else◌,
}
use lab.BTree.Order.{Comparator}
use lab.BTree.Leaf
use lab.BTree.Leaf.{LeafPage}
use lab.BTree.Pages.{Node, leaf, internal, Pages, fetch, unpin, page_id_of}
use lab.BTree.Tree.{Tree, find_leaf_page}

pub record IndexIterator : Type 0 where
  pub page_id : ℕ
  pub index : ℕ

module _ {K V : Type 0} where
  -- `FetchPage(page_id)->GetData()`
  unfoldable pub fetch_data : Pages K V → ℕ → Outcome (Pages K V)
  unfolding fetch
  fetch_data p id = elim (fetch p id) [ none ↦ undefined | some q ↦ ok q ]

  -- `node_`
  unfoldable pub node_of : Pages K V → IndexIterator → Outcome (LeafPage K V)
  node_of p it = elim (p.nodes it.page_id) [ leaf l ↦ ok l | internal n ↦ undefined ]

  unfoldable pub make : Pages K V → ℕ → ℕ → Outcome (Pages K V × IndexIterator)
  unfolding fetch_data
  make p page_id index =
      fetch_data p page_id >>= λ q. ok (q, record { page_id = page_id; index = index })

  -- The destructor.
  unfoldable pub destroy : Pages K V → IndexIterator → Pages K V
  unfolding unpin
  destroy p it = unpin p it.page_id

  unfoldable pub is_end : Pages K V → IndexIterator → Outcome Bool
  unfolding node_of
  is_end p it = do
    node ← node_of p it
    ok (elim node.next_page_id [ none ↦ leb node.size it.index | some next ↦ false ])

  -- `operator*`
  unfoldable pub get : Pages K V → IndexIterator → Outcome (K × V)
  unfolding node_of
  get p it = node_of p it >>= λ node. ok (node.array it.index)

  -- `operator++`
  unfoldable pub next : Pages K V → IndexIterator → Outcome (Pages K V × IndexIterator)
  unfolding node_of fetch_data unpin
  next p it = do
    node ← node_of p it
    let moved = record it { index = it.index + 1 }
    if it.index + 1 == node.size
        then (elim node.next_page_id [
          | none ↦ ok (p, moved)
          | some n_page_id ↦ fetch_data p n_page_id >>= λ q.
              ok (unpin q it.page_id, record { page_id = n_page_id; index = 0 })
        ])
        else ok (p, moved)

  -- `for (; !iterator.isEnd(); ++iterator) … *iterator …`: the entries that the loop sees.
  unfoldable pub scan : ℕ → Pages K V → IndexIterator → Outcome (Pages K V × List (K × V))
  unfolding is_end get next destroy
  scan zero p it = out_of_fuel
  scan (suc fuel) p it = do
    ended ← is_end p it
    elim ended [
      | true ↦ ok (destroy p it, [])
      | false ↦ do
        entry ← get p it
        (q, it) ← next p it
        (q, entries) ← scan fuel q it
        ok (q, entry ∷ entries)
    ]

module _ {K V : Type 0} (c : Comparator K) where
  -- A page that FindLeafPage does not return is dereferenced.
  unfoldable pub begin : K → ℕ → Tree K V → Outcome (Tree K V × IndexIterator)
  unfolding find_leaf_page make unpin
  begin no_key fuel t = do
    (t, page) ← find_leaf_page c fuel t no_key true
    elim page [
      | none ↦ undefined
      | some id ↦ do (pages, it) ← make t.pages id 0; ok (record t { pages = unpin pages id }, it)
    ]

  unfoldable pub begin_at : ℕ → Tree K V → K → Outcome (Tree K V × IndexIterator)
  unfolding find_leaf_page make unpin
  begin_at fuel t key = do
    (t, page) ← find_leaf_page c fuel t key false
    elim page [
      | none ↦ undefined
      | some id ↦ elim (t.pages.nodes id) [
        | internal p ↦ undefined
        | leaf node ↦ elim (Leaf.key_index c node key) [
          | none ↦ undefined
          | some index ↦ do
            (pages, it) ← make t.pages id index
            ok (record t { pages = unpin pages node.page_id }, it)
        ]
      ]
    ]

module _ {K V : Type 0} where
  -- The loop of `end`, along the last children.
  unfoldable pub last_leaf : ℕ → Pages K V → ℕ → Outcome (Pages K V × ℕ)
  unfolding fetch_data unpin
  last_leaf zero p id = out_of_fuel
  last_leaf (suc fuel) p id = elim (p.nodes id) [
    | leaf l ↦ ok (p, id)
    | internal n ↦ do
      let child = (n.array (n.size - 1)).1
      q ← fetch_data p child
      last_leaf fuel (unpin q n.page_id) child
  ]

  unfoldable pub end : ℕ → Tree K V → Outcome (Tree K V × IndexIterator)
  unfolding fetch_data last_leaf make unpin
  end fuel t = elim t.root_page_id [
    | none ↦ undefined
    | some root ↦ do
      pages ← fetch_data t.pages root
      (pages, id) ← last_leaf fuel pages root
      elim (pages.nodes id) [
        | internal n ↦ undefined
        | leaf node ↦ do
          (pages, it) ← make pages id node.size
          ok (record t { pages = unpin pages node.page_id }, it)
      ]
  ]
