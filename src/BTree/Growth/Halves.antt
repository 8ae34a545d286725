-- ===== src/BTree/Growth/Halves.antt =====
-- The two halves of a leaf page that is split (src/storage/page/b_plus_tree_leaf_page.cpp).
use Prim.Native.Nat.{Ordering, lt, eq, gt}
use lab.Common.{
  ℕ, ◌+◌, ◌-◌, ◌/◌, ◌<◌, ◌≡◌, ◌≢◌, refl, subst, sym, ap, ◌∙◌, arith, some, ◌++◌, ◌==◌, Bool-cases,
  inl, inr,
}
use lab.BTree.Order.{Comparator}
use lab.BTree.Entries.{entries, copy_n_lem}
use lab.BTree.Leaf.{LeafPage, move_half_to, copy_n_from, init}
use lab.BTree.Leaf.Contents.{contents, IsSorted}
use lab.BTree.Leaf.Moves.{move_half_to-contents}
use lab.BTree.Pages.{Node, leaf, internal}
use lab.BTree.Tree.{Tree}
use lab.BTree.Tree.Shape.{tree_entries, IsTree, IsLeaf}
use lab.BTree.Growth.Pair.{pair-IsTree, tree_entries-pair}
use lab.BTree.Growth.Steps.{blank, halves, new_root, new_root_lem}

module _ {K V : Type 0} (c : Comparator K) (zero_key : K) (zero_value : V) where
  -- The halves of a sorted page of two entries or more.
  module _ (t : Tree K V) (pid ppid : ℕ) (q : LeafPage K V) (up : IsSorted c q)
      (two : 1 < q.size) where
    abbrev pub left : LeafPage K V
    left = record (halves c zero_key zero_value t pid q).0 { parent_page_id = some ppid }

    abbrev pub right : LeafPage K V
    right = record (halves c zero_key zero_value t pid q).1 { parent_page_id = some ppid }

    left_lem : (left.size ≡ (q.size + 1) / 2) × (left.page_id ≡ q.page_id) × (left.array ≡ q.array)
    unfolding move_half_to
    left_lem = (refl, refl, refl)

    right_lem : (right.size ≡ q.size - (q.size + 1) / 2) × (right.page_id ≡ pid)
    unfolding move_half_to copy_n_from init
    right_lem = (omega arith, refl)

    right_array :
        (i : ℕ) → i < q.size - (q.size + 1) / 2 → right.array i ≡ q.array ((q.size + 1) / 2 + i)
    unfolding move_half_to copy_n_from init
    right_array i h = ground (
      arith,
      copy_n_lem (blank c zero_key zero_value pid t).array 0 (λ i. q.array ((q.size + 1) / 2 + i)) 0
          (q.size - (q.size + 1) / 2) i,
    )

    left-IsLeaf : IsLeaf c left q.page_id
    unfolding move_half_to
    left-IsLeaf = record {
      own_id = refl;
      some_entry = omega arith;
      sorted = λ i j a b d. up i j a b (omega arith);
    }

    right-IsLeaf : IsLeaf c right pid
    right-IsLeaf = record {
      own_id = right_lem.1;
      some_entry = omega (arith, right_lem);
      sorted = λ i j a b d.
          rw (right_array i (omega (arith, right_lem)), right_array j (omega (arith, right_lem)))
            (up ((q.size + 1) / 2 + i) ((q.size + 1) / 2 + j) (omega arith) (omega arith)
              (omega (arith, right_lem)));
    }

    below : (i : ℕ) → i < left.size → c.comparator (left.array i).0 (right.array 0).0 ≡ lt
    unfolding move_half_to
    below i h =
        rw (right_array 0 (omega arith))
          (up i ((q.size + 1) / 2 + 0) (omega arith) (omega arith) (omega arith))

    above : (i : ℕ) → i < right.size → c.comparator (right.array 0).0 (right.array i).0 ≢ gt
    above i h = elim (Bool-cases (i == 0)) [
      | inl first ↦
          let e : i ≡ 0 = ground arith in
          λ g. absurd (
            not_gt (c.comparator_refl (right.array 0).0)
              (ap (λ j. c.comparator (right.array 0).0 (right.array j).0) (sym e) ∙ g))
      | inr later ↦
          let step : c.comparator (right.array 0).0 (right.array i).0 ≡ lt =
            rw (right_array 0 (omega (arith, right_lem)), right_array i (omega (arith, right_lem)))
              (up ((q.size + 1) / 2 + 0) ((q.size + 1) / 2 + i) (omega arith) (ground arith)
                (omega (arith, right_lem))) in
          λ g. cc
    ]
      where
        not_gt : {o : Ordering} → o ≡ eq → o ≡ gt → ⊥
        not_gt a b = cc

    halves-contents : contents left ++ contents right ≡ contents q
    unfolding contents entries init
    halves-contents =
        let (split, taken, half, link, rest) =
          move_half_to-contents q (blank c zero_key zero_value pid t) in
        ap (◌++◌ (contents left)) taken ∙ sym split

    pub halves_parent : (halves c zero_key zero_value t pid q).0.parent_page_id ≡ q.parent_page_id
    unfolding move_half_to
    halves_parent = refl

    pub right_id_lem : (halves c zero_key zero_value t pid q).1.page_id ≡ pid
    unfolding move_half_to copy_n_from init
    right_id_lem = refl

    pub left_id_lem : (halves c zero_key zero_value t pid q).0.page_id ≡ q.page_id
    unfolding move_half_to
    left_id_lem = refl

    -- The tree of the halves below the new root.
    pub split-IsTree :
        (nodes : ℕ → Node K V) (root : ℕ)
        → q.page_id ≡ root
        → nodes ppid
          ≡ internal (
              new_root c zero_key zero_value t ppid root
                ((halves c zero_key zero_value t pid q).1.array 0).0
                pid)
        → nodes root ≡ leaf left
        → nodes pid ≡ leaf right
        → IsTree c nodes 1 ppid × (tree_entries nodes 1 ppid ≡ contents q)
    split-IsTree nodes root own at_root at_left at_right =
        let sep = ((halves c zero_key zero_value t pid q).1.array 0).0 in
        let parent = new_root c zero_key zero_value t ppid root sep pid in
        let (size, id, first, second) = new_root_lem c zero_key zero_value t ppid root pid sep in
        let is_sep : (parent.array 1).0 ≡ sep = ap (λ (x : K × ℕ). x.0) second in
        let is_pid : (parent.array 1).1 ≡ pid = ap (λ (x : K × ℕ). x.1) second in
        let is_left : IsLeaf c left root = subst (IsLeaf c left) own left-IsLeaf in
        let is_below : (i : ℕ)
            → i < left.size
            → c.comparator (left.array i).0 (parent.array 1).0 ≡ lt =
          λ i h. ap (c.comparator (left.array i).0) is_sep ∙ below i h in
        let is_above : (i : ℕ)
            → i < right.size
            → c.comparator (parent.array 1).0 (right.array i).0 ≢ gt =
          λ i h g. above i h (ap (λ x. c.comparator x (right.array i).0) (sym is_sep) ∙ g) in
        (
          pair-IsTree c nodes ppid root pid parent left right at_root at_left at_right size id first
              is_pid is_left right-IsLeaf refl refl is_below is_above,
          tree_entries-pair c nodes ppid root pid parent left right at_root at_left at_right size id
                first is_pid is_left right-IsLeaf refl refl is_below is_above
              ∙ halves-contents,
        )
