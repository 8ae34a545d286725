-- ===== src/BTree/Leaf.antt =====
-- src/storage/page/b_plus_tree_leaf_page.cpp, with the header fields of b_plus_tree_page.cpp. The
-- keys are of any type with a Comparator, the values of any type. INVALID_PAGE_ID is `none`. The
-- array has no bounds of its own, as in the source; an access at index -1 is undefined.
pub mod Contents
pub mod Insert
pub mod Lookup
pub mod Ordered
pub mod Moves
use Prim.Native.Nat.{Ordering}
use lab.Common.{
  ℕ, zero, suc, ◌+◌, ◌-◌, ◌/◌, Bool, true, false, Option, none, some, Outcome, ok, undefined, ◌>>=◌,
  ◌==◌, if◌then◌else◌, update,
}
use lab.BTree.Order.{Comparator, ge, zero?}
use lab.BTree.Entries.{shift_right, shift_left, copy_n}
use lab.BTree.Search.{search_loop}

pub data IndexPageType : Type 0 where
  invalid_index_page leaf_page internal_page : IndexPageType

pub record LeafPage (K V : Type 0) : Type 0 where
  pub page_type : IndexPageType
  pub size : ℕ
  pub max_size : ℕ
  pub parent_page_id : Option ℕ
  pub page_id : ℕ
  pub next_page_id : Option ℕ
  pub array : ℕ → K × V

module _ {K V : Type 0} where
  unfoldable pub init : LeafPage K V → ℕ → Option ℕ → ℕ → LeafPage K V
  init p page_id parent_id max_size = record p {
    page_type = leaf_page;
    page_id = page_id;
    parent_page_id = parent_id;
    max_size = max_size;
    size = 0;
    next_page_id = none;
  }

  -- `GetMinSize`
  unfoldable pub min_size : LeafPage K V → ℕ
  min_size p = p.max_size / 2

  -- `CopyNFrom`
  unfoldable pub copy_n_from : LeafPage K V → (ℕ → K × V) → ℕ → LeafPage K V
  copy_n_from p items n = record p { array = copy_n p.array p.size items 0 n; size = p.size + n }

  -- `MoveHalfTo`: this page and the recipient. `&array[half]` starts at `half`.
  unfoldable pub move_half_to : LeafPage K V → LeafPage K V → LeafPage K V × LeafPage K V
  unfolding copy_n_from
  move_half_to p recipient =
      let half = (p.size + 1) / 2 in
      let filled = copy_n_from recipient (λ i. p.array (half + i)) (p.size - half) in
      (
        record p { size = half; next_page_id = some recipient.page_id },
        record filled { next_page_id = p.next_page_id },
      )

  unfoldable pub move_all_to : LeafPage K V → LeafPage K V → LeafPage K V × LeafPage K V
  unfolding copy_n_from
  move_all_to p recipient =
      let filled = copy_n_from recipient p.array p.size in
      (record p { size = 0 }, record filled { next_page_id = p.next_page_id })

  unfoldable pub copy_last_from : LeafPage K V → K × V → LeafPage K V
  copy_last_from p item = record p { array = update p.array p.size item; size = p.size + 1 }

  -- `MoveFirstToEndOf`: the loop runs to `GetSize()`, one entry past the end.
  unfoldable pub move_first_to_end_of : LeafPage K V → LeafPage K V → LeafPage K V × LeafPage K V
  unfolding copy_last_from
  move_first_to_end_of p recipient = (
    record p { array = shift_left p.array 0 p.size; size = p.size - 1 },
    copy_last_from recipient (p.array 0),
  )

  unfoldable pub copy_first_from : LeafPage K V → K × V → LeafPage K V
  copy_first_from p item = record p {
    array = update (shift_right p.array 0 p.size) 0 item;
    size = p.size + 1;
  }

  unfoldable pub move_last_to_front_of : LeafPage K V → LeafPage K V → LeafPage K V × LeafPage K V
  unfolding copy_first_from
  move_last_to_front_of p recipient =
      (record p { size = p.size - 1 }, copy_first_from recipient (p.array (p.size - 1)))

  -- The end of `Insert`: room at `index`, and the new entry there.
  unfoldable pub insert_at : LeafPage K V → ℕ → K → V → LeafPage K V
  insert_at p index key value = record p {
    array = update (shift_right p.array index (p.size - index)) index (key, value);
    size = p.size + 1;
  }

module _ {K V : Type 0} (c : Comparator K) where
  -- The binary search from `l = 0` and `r = GetSize() - 1`; on an empty page `r` is -1, which is
  -- `none`. The fuel is above `r - l`.
  unfoldable pub search : LeafPage K V → K → Option ℕ
  search p key = if p.size == 0 then none else search_loop c p.array key p.size 0 (p.size - 1)

  unfoldable pub key_index : LeafPage K V → K → Option ℕ
  unfolding search
  key_index p key = search p key

  -- `Insert`: the page, and its size.
  unfoldable pub insert : LeafPage K V → K → V → Outcome (LeafPage K V × ℕ)
  unfolding search insert_at
  insert p key value =
      if p.size == 0
      then ok (record p { array = update p.array 0 (key, value); size = p.size + 1 }, p.size + 1)
      else (elim (search p key) [
        | none ↦ undefined
        | some r ↦
            let index = if ge (c.comparator (p.array r).0 key) then r else r + 1 in
            ok (insert_at p index key value, p.size + 1)
      ])

  -- `Lookup`: the value, if the key is there.
  unfoldable pub lookup : LeafPage K V → K → Outcome (Option V)
  unfolding search
  lookup p key = elim (search p key) [
    | none ↦ undefined
    | some r ↦ if zero? (c.comparator (p.array r).0 key) then ok (some (p.array r).1) else ok none
  ]

  -- `RemoveAndDeleteRecord`: the page, and its size.
  unfoldable pub remove_and_delete_record : LeafPage K V → K → Outcome (LeafPage K V × ℕ)
  unfolding search
  remove_and_delete_record p key = elim (search p key) [
    | none ↦ undefined
    | some index ↦
        if zero? (c.comparator (p.array index).0 key)
        then ok (
          record p { array = shift_left p.array index (p.size - 1 - index); size = p.size - 1 },
          p.size - 1,
        )
        else ok (p, p.size)
  ]
