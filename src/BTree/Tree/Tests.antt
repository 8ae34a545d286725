-- ===== src/BTree/Tree/Tests.antt =====
-- A B+ tree of two leaf pages below a root, on concrete inputs.
use Prim.Native.Nat.{eq}
use lab.Common.{
  ℕ, zero, suc, ◌+◌, ◌*◌, ◌<◌, ◌≤◌, ◌≡◌, ◌≢◌, refl, true, false, none, some, [], ◌∷◌, arith, ok,
  undefined, if◌then◌else◌, ◌==◌, length,
}
use lab.BTree.Order.{numbers}
use lab.BTree.Entries.{entries}
use lab.BTree.Sorted.{find_entry}
use lab.BTree.Leaf.{LeafPage, leaf_page, internal_page}
use lab.BTree.Leaf.Contents.{contents, IsSorted}
use lab.BTree.Internal.{InternalPage}
use lab.BTree.Internal.Lookup.{IsChild}
use lab.BTree.Pages.{Node, leaf, internal, Pages, parent_of}
use lab.BTree.Tree.{Tree, get_value, find_leaf_page}
use lab.BTree.Tree.Pins.{pin}
use lab.BTree.Tree.Shape.{tree_entries, IsTree, IsLeaf, IsInner, join}
use lab.BTree.Tree.Search.{get_value-find_entry}
use lab.BTree.Iterator.{scan}
use lab.BTree.Iterator.Scan.{IsChain, chain_entries, node_entries, scan-chain_entries}
use lab.BTree.Growth.{insert}
use lab.BTree.Growth.Root.{Grown, insert-Grown, get_value-insert}
use lab.BTree.Tree.Defects.{find_leaf_page-undefined}

-- The keys 1 and 5, and the keys 10 and 12.
abbrev left : LeafPage ℕ ℕ
left = record {
  page_type = leaf_page;
  size = 2;
  max_size = 4;
  parent_page_id = some 1;
  page_id = 2;
  next_page_id = some 3;
  array = λ i. (1 + 4 * i, i);
}

abbrev right : LeafPage ℕ ℕ
right = record {
  page_type = leaf_page;
  size = 2;
  max_size = 4;
  parent_page_id = some 1;
  page_id = 3;
  next_page_id = none;
  array = λ i. (10 + 2 * i, 7);
}

abbrev top : InternalPage ℕ
top = record {
  page_type = internal_page;
  size = 2;
  max_size = 4;
  parent_page_id = none;
  page_id = 1;
  array = λ i. (10 * i, i + 2);
}

abbrev nodes : ℕ → Node ℕ ℕ
nodes id = if id == 1 then internal top else if id == 2 then leaf left else leaf right

abbrev pages : Pages ℕ ℕ
pages = record { frames = 3; used = 0; pins = λ id. 0; nodes = nodes; next_page_id = 4 }

abbrev small : Tree ℕ ℕ
small = record {
  root_page_id = some 1;
  leaf_max_size = 4;
  internal_max_size = 4;
  root_locked = false;
  pages = pages;
}

keys_of_left : (key value : ℕ) → find_entry numbers key (contents left) ≡ some value → key < 10
unfolding find_entry contents entries
keys_of_left key value h = ground arith

keys_of_right : (key value : ℕ) → find_entry numbers key (contents right) ≡ some value → 10 ≤ key
unfolding find_entry contents entries
keys_of_right key value h = ground arith

left-IsChild : (key : ℕ) → key < 10 → IsChild numbers top key 0
left-IsChild key h = record {
  in_page = omega arith;
  at_most = λ j a b. absurd (omega arith);
  larger = λ j a b. ground arith;
}

right-IsChild : (key : ℕ) → 10 ≤ key → IsChild numbers top key 1
right-IsChild key h = record {
  in_page = omega arith;
  at_most = λ j a b e. ground arith;
  larger = λ j a b. absurd (omega arith);
}

left-IsLeaf : IsLeaf numbers left 2
left-IsLeaf = record { own_id = refl; some_entry = omega arith; sorted = λ i j a l b. ground arith }

right-IsLeaf : IsLeaf numbers right 3
right-IsLeaf = record {
  own_id = refl;
  some_entry = omega arith;
  sorted = λ i j a l b. ground arith;
}

has_range :
    (i key value : ℕ)
    → i < 2
    → find_entry numbers key (tree_entries nodes 0 (top.array i).1) ≡ some value
    → IsChild numbers top key i
unfolding tree_entries
has_range zero key value b h = left-IsChild key (keys_of_left key value h)
has_range (suc zero) key value b h = right-IsChild key (keys_of_right key value h)
has_range (suc (suc i)) key value b h = absurd (omega arith)

top-IsInner : IsInner numbers top 1 (tree_entries nodes 0)
top-IsInner = record {
  own_id = refl;
  two = omega arith;
  keys = λ i j a l b. absurd (omega arith);
  in_range = has_range;
}

has_children :
    (i : ℕ)
    → i < 2
    → IsTree numbers nodes 0 (top.array i).1 × (parent_of (nodes (top.array i).1) ≡ some 1)
unfolding IsTree
has_children zero b = (left-IsLeaf, refl)
has_children (suc zero) b = (right-IsLeaf, refl)
has_children (suc (suc i)) b = absurd (omega arith)

small-IsTree : IsTree numbers nodes 1 1
unfolding IsTree
small-IsTree = (top-IsInner, has_children)

get_value-find_entry_example :
    get_value numbers 2 small 10 ≡ ok (small, find_entry numbers 10 (tree_entries nodes 1 1))
get_value-find_entry_example =
    get_value-find_entry numbers small 10 (omega arith) 1 2 1 refl refl (omega arith) small-IsTree

-- The value of the key 10.
found_seven : find_entry numbers 10 (tree_entries nodes 1 1) ≡ some 7
unfolding find_entry tree_entries join contents entries
found_seven = refl

find_leaf_page-undefined_example : find_leaf_page numbers 2 small 10 false ≡ undefined
find_leaf_page-undefined_example =
    find_leaf_page-undefined numbers 10 false small (omega arith) 0 0 1 refl refl small-IsTree

linked-IsChain : IsChain nodes 2 (3 ∷ [])
unfolding IsChain
linked-IsChain = (left, refl, refl, omega arith, (right, refl, refl))

chain_length : length (chain_entries nodes 2 (3 ∷ [])) ≡ 4
unfolding chain_entries node_entries contents entries
chain_length = refl

scan-chain_entries_example :
    scan 5 (pin pages 2) (record { page_id = 2; index = 0 })
    ≡ ok (pages, chain_entries nodes 2 (3 ∷ []))
scan-chain_entries_example =
    scan-chain_entries pages (omega arith) (3 ∷ []) 2 5 linked-IsChain (omega (arith, chain_length))

-- A full root leaf page with the keys 1 and 5.
abbrev lone : LeafPage ℕ ℕ
lone = record left { parent_page_id = none; page_id = 1; max_size = 3 }

abbrev single : Tree ℕ ℕ
single = record {
  root_page_id = some 1;
  leaf_max_size = 3;
  internal_max_size = 4;
  root_locked = false;
  pages = record {
    frames = 5;
    used = 0;
    pins = λ id. 0;
    nodes = λ id. leaf lone;
    next_page_id = 4;
  };
}

lone-IsSorted : IsSorted numbers lone
lone-IsSorted i j a l b = ground arith

absent_seven : (i : ℕ) → i < 2 → numbers.comparator (lone.array i).0 7 ≢ eq
absent_seven i h = λ e. ground arith

insert-Grown_example :
    (w : Tree ℕ ℕ) × (insert numbers 0 0 1 single 7 70 ≡ ok (w, true))
    × Grown numbers 0 0 single 1 lone 7 70 w
insert-Grown_example =
    insert-Grown numbers 0 0 single 1 lone 7 70 refl refl refl refl refl (omega arith) (omega arith)
      lone-IsSorted (omega arith) absent_seven 0

get_value-insert_example :
    (w : Tree ℕ ℕ) × (insert numbers 0 0 1 single 7 70 ≡ ok (w, true))
    × (get_value numbers 2 w 7 ≡ ok (w, some 70))
    × ((other : ℕ)
        → numbers.comparator 7 other ≢ eq
        → get_value numbers 2 w other ≡ ok (w, find_entry numbers other (contents lone)))
get_value-insert_example =
    get_value-insert numbers 0 0 single 1 lone 7 70 refl refl refl refl refl (omega arith)
      (omega arith) lone-IsSorted (omega arith) absent_seven 0
