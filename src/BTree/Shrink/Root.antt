-- ===== src/BTree/Shrink/Root.antt =====
-- Remove on a tree whose root is a leaf page (src/storage/index/b_plus_tree.cpp).
use lab.Common.{ℕ, ◌<◌, ◌≡◌, ◌⊎◌, true, false, none, some, [], ok}
use lab.BTree.Order.{Comparator}
use lab.BTree.Sorted.{remove_entry}
use lab.BTree.Leaf
use lab.BTree.Leaf.{LeafPage}
use lab.BTree.Leaf.Contents.{contents, IsSorted}
use lab.BTree.Internal.{InternalPage}
use lab.BTree.Pages.{leaf, Pages, set_node}
use lab.BTree.Tree.{Tree}
use lab.BTree.Tree.Pins.{pin}
use lab.BTree.Tree.Shape.{tree_entries, IsTree}

module _ {K V : Type 0} (c : Comparator K) (misread : InternalPage K → K) (zero_key : K) where
  module _ (t : Tree K V) (root : ℕ) (l : LeafPage K V) (key : K) where
    abbrev held : Tree K V
    held = record t { root_locked = true; root_page_id = some root; pages = pin t.pages root }

    -- An empty tree if no entry is left, and else a leaf page with the entries that are left.
    abbrev pub Removed : Tree K V → Type 0
    Removed w =
        ((remove_entry c key (contents l) ≡ []) × (w.root_page_id ≡ none))
        ⊎ ((w.root_page_id ≡ some root)
            × IsTree c w.pages.nodes 0 root
            × (tree_entries w.pages.nodes 0 root ≡ remove_entry c key (contents l)))

    module _ (r : t.root_page_id ≡ some root) (open_latch : t.root_locked ≡ false)
        (e : t.pages.nodes root ≡ leaf l) (own : l.page_id ≡ root)
        (orphan : l.parent_page_id ≡ none) (room : t.pages.used < t.pages.frames)
        (up : IsSorted c l) (n : 0 < l.size) (two : 1 < l.max_size) where
      module _ (q : LeafPage K V) (removed : Leaf.remove_and_delete_record c l key ≡ ok (q, q.size))
          (listed : contents q ≡ remove_entry c key (contents l)) where
        abbrev settled : Tree K V
        settled = record held { pages = set_node (pin t.pages root) root (leaf q) }
