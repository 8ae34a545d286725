-- ===== src/BTree/Growth/Split.antt =====
-- The split of a root leaf page (src/storage/index/b_plus_tree.cpp).
use lab.Common.{
  ℕ, suc, ◌+◌, ◌≤◌, ◌<◌, ◌≡◌, refl, sym, ap, ◌∙◌, arith, false, none, some, ok, ◌>>=◌, update, leb,
}
use lab.BTree.Order.{Comparator}
use lab.BTree.Sorted.{insert_entry}
use lab.BTree.Leaf.{LeafPage, insert_at}
use lab.BTree.Leaf.Contents.{contents, IsSorted, search-IsPosition}
use lab.BTree.Leaf.Insert.{index_of, in_page, insert_entry_at, contents-insert_at}
use lab.BTree.Leaf.Ordered.{Absent, inserted-IsSorted, insert_some_lem}
use lab.BTree.Pages.{leaf, unpin, set_node, parent_of, page_id_of}
use lab.BTree.Tree.{Tree}
use lab.BTree.Tree.Pins.{unpin-nodes, unpin_two}
use lab.BTree.Tree.Shape.{tree_entries, IsTree, IsLeaf}
use lab.BTree.Growth.{add_to_leaf}
use lab.BTree.Growth.Steps.{
  halves, new_root, linked, split_step, linked-nodes, grow_step, root_step, add_step, new_page_step,
}
use lab.BTree.Growth.Halves.{left_id_lem, halves_parent, right_id_lem, split-IsTree}

module _ {K V : Type 0} (c : Comparator K) (zero_key : K) (zero_value : V) where
  -- A full root leaf page.
  module _ (t : Tree K V) (root : ℕ) (l : LeafPage K V) (key : K) (value : V) (up : IsSorted c l)
      (n : 0 < l.size) (absent : Absent c l key up) where
    -- The branch that splits the page.
    pub split_root :
        (fuel : ℕ)
        → l.page_id ≡ root
        → l.parent_page_id ≡ none
        → l.max_size ≤ l.size + 1
        → root < t.pages.next_page_id
        → t.pages.used + 1 < t.pages.frames
        → (u : Tree K V) × (new_root_id : ℕ) × (add_to_leaf c zero_key zero_value
              (suc fuel)
              t
              root
              l
              key
              value
            ≡ ok u)
          × (u.root_page_id ≡ some new_root_id)
          × (u.root_locked ≡ t.root_locked)
          × ((u.pages.frames ≡ t.pages.frames)
              × (u.pages.used ≡ t.pages.used)
              × (u.pages.pins root ≡ t.pages.pins root))
          × IsTree c u.pages.nodes 1 new_root_id
          × (tree_entries u.pages.nodes 1 new_root_id ≡ insert_entry c key value (contents l))
    unfolding insert_at
    split_root fuel own orphan full fresh room =
        let (r, e, k) = search-IsPosition c l key up n in
        let s = index_of c l key value up r in
        let q = insert_at l s key value in
        let pid = t.pages.next_page_id in
        let ppid = pid + 1 in
        let t1 = record t { pages = set_node t.pages root (leaf q) } in
        let p1 = record t1.pages {
          next_page_id = ppid;
          pins = update t1.pages.pins pid 1;
          used = t1.pages.used + 1;
        } in
        let u = record t1 {
          pages =
              set_node (set_node p1 root (leaf (halves c zero_key zero_value t pid q).0)) pid
                (leaf (halves c zero_key zero_value t pid q).1);
        } in
        let p2 = record u.pages {
          next_page_id = ppid + 1;
          pins = update u.pages.pins ppid 1;
          used = u.pages.used + 1;
        } in
        let sep = ((halves c zero_key zero_value t pid q).1.array 0).0 in
        let parent = new_root c zero_key zero_value t ppid root sep pid in
        let v = record u {
          root_page_id = some ppid;
          pages = unpin (linked c zero_key zero_value p2 ppid root pid parent) ppid;
        } in
        let w = record v { pages = unpin v.pages pid } in
        let sorted : IsSorted c q = inserted-IsSorted c l key up value absent n r k in
        let at_left : p2.nodes root ≡ leaf (halves c zero_key zero_value t pid q).0 =
          ground arith in
        let at_right : p2.nodes pid ≡ leaf (halves c zero_key zero_value t pid q).1 =
          ground arith in
        let split =
          split_step c zero_key zero_value t1 root q p1 pid orphan
            (new_page_step c zero_key zero_value t1.pages (omega arith)) in
        let orphaned : parent_of (u.pages.nodes root) ≡ none =
          ap parent_of at_left
          ∙ halves_parent c zero_key zero_value t pid ppid q sorted (omega arith)
          ∙ orphan in
        let grown =
          grow_step c zero_key zero_value u root pid sep p2 ppid
            (new_page_step c zero_key zero_value u.pages (omega arith))
            (ap page_id_of at_left
              ∙ left_id_lem c zero_key zero_value t pid ppid q sorted (omega arith)
              ∙ own)
            (ap page_id_of at_right
              ∙ right_id_lem c zero_key zero_value t pid ppid q sorted (omega arith)) in
        let (top, first, second) =
          linked-nodes c zero_key zero_value p2 ppid root pid parent
            (halves c zero_key zero_value t pid q).0 (halves c zero_key zero_value t pid q).1
            at_left at_right fresh (omega arith) in
        let same : w.pages.nodes ≡ (linked c zero_key zero_value p2 ppid root pid parent).nodes =
          unpin-nodes v.pages pid
          ∙ unpin-nodes (linked c zero_key zero_value p2 ppid root pid parent) ppid in
        let counted =
          unpin_two t.pages (linked c zero_key zero_value p2 ppid root pid parent) root pid refl
            refl refl fresh in
        let (shape, listed) =
          split-IsTree c zero_key zero_value t pid ppid q sorted (omega arith) w.pages.nodes root
            own (ap (λ f. f ppid) same ∙ top) (ap (λ f. f root) same ∙ first)
            (ap (λ f. f pid) same ∙ second) in
        (
          w,
          ppid,
          add_step c zero_key zero_value (suc fuel) t u v root pid l q
              (halves c zero_key zero_value t pid q).1 key value (l.size + 1)
              (insert_some_lem c l key up value absent n r k e) (ground arith) split
              (root_step c zero_key zero_value fuel u root sep pid orphaned ∙ grown),
          refl,
          refl,
          counted,
          shape,
          listed
              ∙ contents-insert_at l s key value (in_page c l key value up n r k)
              ∙ sym (insert_entry_at c l key value up n r k),
        )

    -- The branch for a page with room.
    pub keep_root :
        (fuel : ℕ)
        → l.page_id ≡ root
        → l.size + 1 < l.max_size
        → (u : Tree K V) × (add_to_leaf c zero_key zero_value fuel t root l key value ≡ ok u)
          × (u.root_page_id ≡ t.root_page_id)
          × (u.root_locked ≡ t.root_locked)
          × ((u.pages.frames ≡ t.pages.frames)
              × (u.pages.used ≡ t.pages.used)
              × (u.pages.pins root ≡ t.pages.pins root))
          × IsTree c u.pages.nodes 0 root
          × (tree_entries u.pages.nodes 0 root ≡ insert_entry c key value (contents l))
    unfolding insert_at IsTree tree_entries add_to_leaf
    keep_root fuel own fits =
        let (r, e, k) = search-IsPosition c l key up n in
        let s = index_of c l key value up r in
        let q = insert_at l s key value in
        let nodes = update t.pages.nodes root (leaf q) in
        let at_root : nodes root ≡ leaf q = ground arith in
        let small : leb q.max_size (l.size + 1) ≡ false = ground arith in
        let sorted : IsSorted c q = inserted-IsSorted c l key up value absent n r k in
        let is_leaf : IsLeaf c q root = record {
          own_id = own;
          some_entry = omega arith;
          sorted = sorted;
        } in
        (
          record t { pages = set_node t.pages root (leaf q) },
          rw (add_to_leaf, insert_some_lem c l key up value absent n r k e)
              (rw (◌>>=◌, small) refl),
          refl,
          refl,
          (refl, refl, refl),
          rw (IsTree, at_root) is_leaf,
          rw (tree_entries, at_root)
              (contents-insert_at l s key value (in_page c l key value up n r k)
                ∙ sym (insert_entry_at c l key value up n r k)),
        )
