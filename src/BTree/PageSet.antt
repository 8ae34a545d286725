-- ===== src/BTree/PageSet.antt =====
-- src/storage/index/b_plus_tree.cpp: the page set of a transaction, in the loops of InsertIntoLeaf and
-- Remove that go down to a leaf page. The pages of the page set are pinned.
use lab.Common.{
  ℕ, zero, suc, Bool, false, none, some, List, [], ◌∷◌, ◌++◌, Outcome, ok, out_of_fuel, ◌>>=◌, ◌==◌,
  if◌then◌else◌,
}
use lab.BTree.Order.{Comparator}
use lab.BTree.Leaf.{LeafPage}
use lab.BTree.Internal
use lab.BTree.Pages.{Node, leaf, internal, fetch, unpin, or_throw}
use lab.BTree.Tree.{Tree, unlock_if}

module _ {K V : Type 0} where
  abbrev pub is_root_page : Tree K V → ℕ → Bool
  is_root_page t id = elim t.root_page_id [ none ↦ false | some root ↦ id == root ]

  -- The pages of the page set are released, the root latch with the root page.
  unfoldable pub release_safe : Tree K V → List ℕ → Bool → Outcome (Tree K V × Bool)
  unfolding unlock_if unpin
  release_safe t [] locked = ok (t, locked)
  release_safe t (id ∷ ids) locked = unlock_if (is_root_page t id) t >>= λ u.
      release_safe (record u { pages = unpin u.pages id }) ids
        (if is_root_page t id then false else locked)

  unfoldable pub release_all : Tree K V → List ℕ → Tree K V
  unfolding unpin
  release_all t [] = t
  release_all t (id ∷ ids) = release_all (record t { pages = unpin t.pages id }) ids

  -- The page set with the child: a safe child releases the pages above it.
  unfoldable pub advance :
      (Node K V → Bool) → Tree K V → ℕ → List ℕ → Bool → Outcome (Tree K V × List ℕ × Bool)
  unfolding release_safe
  advance is_safe t child page_set locked =
      if is_safe (t.pages.nodes child)
      then release_safe t page_set locked >>= (λ r. ok (r.0, child ∷ [], r.1))
      else ok (t, page_set ++ child ∷ [], locked)

module _ {K V : Type 0} (c : Comparator K) where
  -- The loop of InsertIntoLeaf and of Remove from the page `id` on, which is the last of the page set.
  unfoldable pub find_safe :
      (Node K V → Bool)
      → ℕ
      → Tree K V
      → ℕ
      → K
      → List ℕ
      → Bool
      → Outcome (Tree K V × ℕ × LeafPage K V × List ℕ × Bool)
  unfolding advance fetch
  find_safe is_safe zero t id key page_set locked = out_of_fuel
  find_safe is_safe (suc fuel) t id key page_set locked = elim (t.pages.nodes id) [
    | leaf l ↦ ok (t, id, l, page_set, locked)
    | internal p ↦ do
      child ← Internal.lookup c p key
      pages ← or_throw (fetch t.pages child)
      (t, page_set, locked) ← advance is_safe (record t { pages = pages }) child page_set locked
      find_safe is_safe fuel t child key page_set locked
  ]
