-- ===== src/BTree/Growth/Pair.antt =====
-- Two leaf pages below an internal page, as the split of a root leaf page makes them.
use Prim.Native.Nat.{lt, eq, gt}
use lab.Common.{
  ℕ, zero, suc, ◌+◌, ◌≤◌, ◌<◌, ◌≡◌, ◌≢◌, refl, sym, ap, ◌∙◌, arith, some, List, [], ◌∷◌, ◌++◌,
  Bool-cases, inl, inr,
}
use lab.BTree.Order.{Comparator, zero?}
use lab.BTree.Entries.{entries}
use lab.BTree.Sorted.{find_entry}
use lab.BTree.Leaf.{LeafPage}
use lab.BTree.Leaf.Lookup.{is_zero}
use lab.BTree.Leaf.Contents.{contents}
use lab.BTree.Internal.{InternalPage}
use lab.BTree.Internal.Lookup.{IsChild}
use lab.BTree.Pages.{Node, leaf, internal, parent_of}
use lab.BTree.Tree.Shape.{tree_entries, join, IsTree, IsLeaf}

module _ {K V : Type 0} (c : Comparator K) where
  -- A key that is found is the key of an entry.
  found_at :
      (array : ℕ → K × V) (key : K) (value : V) (i n : ℕ)
      → find_entry c key (entries array i n) ≡ some value
      → (j : ℕ) × (i ≤ j) × (j < i + n) × (c.comparator (array j).0 key ≡ eq)
  unfolding find_entry entries
  found_at array key value i zero h = absurd (ground arith)
  found_at array key value i (suc n) h = elim (Bool-cases (zero? (c.comparator (array i).0 key))) [
    | inl same ↦ (i, omega arith, omega arith, is_zero _ same)
    | inr differ ↦
        let (j, a, b, e) = found_at array key value (i + 1) n (ground arith) in
        (j, omega arith, omega arith, e)
  ]

  append_nil : (xs : List (K × V)) → xs ++ [] ≡ xs
  append_nil [] = refl
  append_nil (x ∷ xs) = ap (◌∷◌ x) (append_nil xs)

  module _ (nodes : ℕ → Node K V) (root left_id right_id : ℕ) (p : InternalPage K)
      (l r : LeafPage K V) (at_root : nodes root ≡ internal p) (at_left : nodes left_id ≡ leaf l)
      (at_right : nodes right_id ≡ leaf r) (two : p.size ≡ 2) (own : p.page_id ≡ root)
      (first : (p.array 0).1 ≡ left_id) (second : (p.array 1).1 ≡ right_id)
      (left-IsLeaf : IsLeaf c l left_id) (right-IsLeaf : IsLeaf c r right_id)
      (left_parent : l.parent_page_id ≡ some root) (right_parent : r.parent_page_id ≡ some root)
      (below : (i : ℕ) → i < l.size → c.comparator (l.array i).0 (p.array 1).0 ≡ lt)
      (above : (i : ℕ) → i < r.size → c.comparator (p.array 1).0 (r.array i).0 ≢ gt) where
    left_entries : tree_entries nodes 0 left_id ≡ contents l
    unfolding tree_entries
    left_entries = rw (tree_entries, at_left) refl

    right_entries : tree_entries nodes 0 right_id ≡ contents r
    unfolding tree_entries
    right_entries = rw (tree_entries, at_right) refl

    left_range :
        (key : K) (value : V) → find_entry c key (contents l) ≡ some value → IsChild c p key 0
    unfolding contents
    left_range key value h =
        let (i, a, b, e) = found_at l.array key value 0 l.size h in
        let before : c.comparator key (p.array 1).0 ≡ lt =
          sym (c.comparator_eq_left (l.array i).0 key (p.array 1).0 e) ∙ below i (omega arith) in
        let behind : c.comparator (p.array 1).0 key ≡ gt =
          c.comparator_flip key (p.array 1).0 before in
        record {
          in_page = omega arith;
          at_most = λ j a b. absurd (omega arith);
          larger = λ j a b. let one : j ≡ 1 = omega arith in rw one behind;
        }

    right_range :
        (key : K) (value : V) → find_entry c key (contents r) ≡ some value → IsChild c p key 1
    unfolding contents
    right_range key value h =
        let (i, a, b, e) = found_at r.array key value 0 r.size h in
        let not_behind : c.comparator (p.array 1).0 key ≢ gt = λ g. above i (omega arith) (
          c.comparator_flip (r.array i).0 (p.array 1).0 (
            c.comparator_eq_left (r.array i).0 key (p.array 1).0 e
            ∙ c.comparator_flip_gt (p.array 1).0 key g)) in
        record {
          in_page = omega arith;
          at_most = λ j a b. let one : j ≡ 1 = omega arith in rw one not_behind;
          larger = λ j a b. absurd (omega arith);
        }

    has_range :
        (i : ℕ) (key : K) (value : V)
        → i < p.size
        → find_entry c key (tree_entries nodes 0 (p.array i).1) ≡ some value
        → IsChild c p key i
    has_range zero key value b h =
        left_range key value
          (ap (find_entry c key) (sym left_entries ∙ ap (tree_entries nodes 0) (sym first)) ∙ h)
    has_range (suc zero) key value b h =
        right_range key value
          (ap (find_entry c key) (sym right_entries ∙ ap (tree_entries nodes 0) (sym second)) ∙ h)
    has_range (suc (suc i)) key value b h = absurd (omega arith)

    is_child :
        (i : ℕ)
        → i < p.size
        → IsTree c nodes 0 (p.array i).1 × (parent_of (nodes (p.array i).1) ≡ some root)
    unfolding IsTree
    is_child zero b = rw (first, at_left) (left-IsLeaf, left_parent)
    is_child (suc zero) b = rw (second, at_right) (right-IsLeaf, right_parent)
    is_child (suc (suc i)) b = absurd (omega arith)

    pub pair-IsTree : IsTree c nodes 1 root
    unfolding IsTree
    pair-IsTree =
        rw (IsTree, at_root)
          (
            record {
              own_id = own;
              two = omega arith;
              keys = λ i j a l b. absurd (omega arith);
              in_range = has_range;
            },
            is_child,
          )

    pub tree_entries-pair : tree_entries nodes 1 root ≡ contents l ++ contents r
    unfolding tree_entries join
    tree_entries-pair =
        rw (tree_entries, at_root, two, first, at_left, second, at_right)
          (ap (◌++◌ (contents l)) (append_nil (contents r)))
