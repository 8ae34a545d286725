-- ===== src/BTree/Tests.antt =====
-- The pages of the B+ tree on concrete inputs.
use Prim.Native.Nat.{eq}
use lab.Common.{ℕ, ◌+◌, ◌*◌, ◌<◌, ◌≡◌, ◌≢◌, refl, none, some, arith, Outcome, ok}
use lab.BTree.Order.{numbers}
use lab.BTree.Search.{search_loop, Ascending}
use lab.BTree.Sorted.{insert_entry, find_entry}
use lab.BTree.Leaf.{LeafPage, leaf_page, internal_page, insert, lookup, remove_and_delete_record}
use lab.BTree.Leaf.Contents.{contents, IsSorted}
use lab.BTree.Leaf.Insert.{insert-insert_entry}
use lab.BTree.Leaf.Lookup.{lookup-find_entry}
use lab.BTree.Internal.{InternalPage}

-- The keys 0, 10, 20, …
abbrev tens : ℕ → ℕ × ℕ
tens i = (i * 10, i)

abbrev three : LeafPage ℕ ℕ
three = record {
  page_type = leaf_page;
  size = 3;
  max_size = 5;
  parent_page_id = none;
  page_id = 7;
  next_page_id = some 9;
  array = tens;
}

abbrev two : LeafPage ℕ ℕ
two = record {
  page_type = leaf_page;
  size = 2;
  max_size = 5;
  parent_page_id = none;
  page_id = 8;
  next_page_id = none;
  array = λ i. (100 + i, i);
}

abbrev no_entry : LeafPage ℕ ℕ
no_entry = record two { size = 0 }

tens-Ascending : (first last : ℕ) → Ascending numbers tens first last
tens-Ascending first last i j a l b = ground arith

three-IsSorted : IsSorted numbers three
three-IsSorted = tens-Ascending 0 2

insert-insert_entry_example :
    (q : LeafPage ℕ ℕ) × (insert numbers three 15 4 ≡ ok (q, three.size + 1))
    × (q.size ≡ three.size + 1)
    × (contents q ≡ insert_entry numbers 15 4 (contents three))
insert-insert_entry_example = insert-insert_entry numbers three 15 4 three-IsSorted

lookup-find_entry_example : lookup numbers three 20 ≡ ok (find_entry numbers 20 (contents three))
lookup-find_entry_example = lookup-find_entry numbers three 20 three-IsSorted (omega arith)

-- The page of an answer.
abbrev answered : Outcome (LeafPage ℕ ℕ × ℕ) → LeafPage ℕ ℕ
answered (ok (p, n)) = p
answered _ = no_entry

abbrev four : LeafPage ℕ ℕ
four = answered (insert numbers three 15 4)

inserted : insert numbers three 15 4 ≡ ok (four, 4)
unfolding insert search_loop
inserted = refl

abbrev pair : LeafPage ℕ ℕ
pair = answered (remove_and_delete_record numbers three 10)

removed : remove_and_delete_record numbers three 10 ≡ ok (pair, 2)
unfolding remove_and_delete_record search_loop
removed = refl

absent_fifteen : (i : ℕ) → i < 3 → numbers.comparator (three.array i).0 15 ≢ eq
absent_fifteen i h = λ e. ground arith

abbrev node : InternalPage ℕ
node = record {
  page_type = internal_page;
  size = 3;
  max_size = 5;
  parent_page_id = none;
  page_id = 4;
  array = tens;
}
