-- ===== src/BTree/Internal.antt =====
-- src/storage/page/b_plus_tree_internal_page.cpp: the values are page ids, and the first key is not
-- used. To adopt a child is to fetch its page, set its parent there and unpin it; what the buffer
-- pool keeps for the children is their parents, and which pages it can fetch is a parameter.
pub mod Lookup
pub mod Insert
pub mod Moves
use lab.Common.{
  ℕ, zero, suc, ◌+◌, ◌-◌, ◌/◌, Bool, true, false, Option, none, some, Outcome, ok, undefined, ◌>>=◌,
  ◌>>◌, ◌==◌, ltb, if◌then◌else◌, update,
}
use lab.BTree.Order.{Comparator, positive}
use lab.BTree.Entries.{shift_left, copy_n}
use lab.BTree.Search.{search_loop}
use lab.BTree.Leaf.{IndexPageType, internal_page}

pub record InternalPage (K : Type 0) : Type 0 where
  pub page_type : IndexPageType
  pub size : ℕ
  pub max_size : ℕ
  pub parent_page_id : Option ℕ
  pub page_id : ℕ
  pub array : ℕ → K × ℕ

module _ {K : Type 0} where
  unfoldable pub init : InternalPage K → ℕ → Option ℕ → ℕ → InternalPage K
  init p page_id parent_id max_size = record p {
    page_type = internal_page;
    page_id = page_id;
    parent_page_id = parent_id;
    max_size = max_size;
    size = 0;
  }

  unfoldable pub set_key_at : InternalPage K → ℕ → K → InternalPage K
  set_key_at p index key = record p { array = update p.array index (key, (p.array index).1) }

  -- The loop of `ValueIndex` over the `n` entries from `i` on; -1 is `none`.
  unfoldable pub value_index_from : (ℕ → K × ℕ) → ℕ → ℕ → ℕ → Option ℕ
  value_index_from array value i zero = none
  value_index_from array value i (suc n) =
      let rest = value_index_from array value (i + 1) n in
      if (array i).1 == value then some i else rest

  unfoldable pub value_index : InternalPage K → ℕ → Option ℕ
  unfolding value_index_from
  value_index p value = value_index_from p.array value 0 p.size

  -- `Lookup`: the child for the key. A page of one entry makes it read the key before the array.
  unfoldable pub lookup : Comparator K → InternalPage K → K → Outcome ℕ
  lookup c p key =
      if positive (c.comparator (p.array 1).0 key)
      then ok (p.array 0).1
      else (if p.size == 0
          then undefined
          else (elim (search_loop c p.array key (p.size + 1) 1 (p.size - 1)) [
            | none ↦ undefined
            | some r ↦
                if positive (c.comparator (p.array r).0 key)
                then (if r == 0 then undefined else ok (p.array (r - 1)).1)
                else ok (p.array r).1
          ]))

  -- The loop of `InsertNodeAfter`, with `i` entries still to be looked at.
  unfoldable pub insert_loop : ℕ → K × ℕ → (ℕ → K × ℕ) → ℕ → ℕ → K × ℕ
  insert_loop old_value new array zero = array
  insert_loop old_value new array (suc i) =
      let rest = insert_loop old_value new (update array (suc i) (array i)) i in
      if (array i).1 == old_value then update array (suc i) new else rest

  -- `InsertNodeAfter`: the page, and its size.
  unfoldable pub insert_node_after : InternalPage K → ℕ → K → ℕ → InternalPage K × ℕ
  unfolding insert_loop
  insert_node_after p old_value new_key new_value = (
    record p {
      array = insert_loop old_value (new_key, new_value) p.array p.size;
      size = p.size + 1;
    },
    p.size + 1,
  )

  unfoldable pub populate_new_root : InternalPage K → ℕ → K → ℕ → InternalPage K
  unfolding insert_node_after
  populate_new_root p old_value new_key new_value =
      (insert_node_after
        (record p { size = p.size + 1; array = update p.array 0 ((p.array 0).0, old_value) })
        old_value new_key new_value).0

  unfoldable pub remove : InternalPage K → ℕ → InternalPage K
  remove p index = record p {
    array = shift_left p.array index (p.size - 1 - index);
    size = p.size - 1;
  }

  unfoldable pub remove_and_return_only_child : InternalPage K → InternalPage K × ℕ
  remove_and_return_only_child p = (record p { size = 0 }, (p.array 0).1)

  -- The loop of `CopyFirstFrom`, `for (int i = size - 1; i >= 0; i++) array[i + 1] = array[i];`, from
  -- `i` on; `none` if the fuel runs out.
  unfoldable pub shift_up : ℕ → (ℕ → K × ℕ) → ℕ → Option (ℕ → K × ℕ)
  shift_up zero array i = none
  shift_up (suc fuel) array i = shift_up fuel (update array (i + 1) (array i)) (i + 1)

-- The parents that the pages of the buffer pool name.
abbrev pub Parents : Type 0
Parents = ℕ → Option ℕ

-- FetchPage, SetParentPageId and UnpinPage for a child; a page that cannot be fetched is a null
-- pointer.
unfoldable pub adopt : (ℕ → Bool) → Parents → ℕ → ℕ → Outcome Parents
adopt fetches parents child parent =
    if fetches child then ok (update parents child (some parent)) else undefined

module _ {K : Type 0} (fetches : ℕ → Bool) where
  -- The children of the `n` items from `i` on are adopted in turn.
  unfoldable pub adopt_all : Parents → (ℕ → K × ℕ) → ℕ → ℕ → ℕ → Outcome Parents
  unfolding adopt
  adopt_all parents items parent i zero = ok parents
  adopt_all parents items parent i (suc n) = do
    parents ← adopt fetches parents (items i).1 parent
    adopt_all parents items parent (i + 1) n

  unfoldable pub copy_n_from :
      Parents → InternalPage K → (ℕ → K × ℕ) → ℕ → Outcome (Parents × InternalPage K)
  unfolding adopt_all
  copy_n_from parents p items n = do
    parents ← adopt_all parents items p.page_id 0 n
    ok (parents, record p { array = copy_n p.array p.size items 0 n; size = p.size + n })

  unfoldable pub move_half_to :
      Parents
      → InternalPage K
      → InternalPage K
      → Outcome (Parents × InternalPage K × InternalPage K)
  unfolding copy_n_from
  move_half_to parents p recipient = do
    let half = (p.size + 1) / 2
    (parents, recipient) ← copy_n_from parents recipient (λ i. p.array (half + i)) (p.size - half)
    ok (parents, record p { size = half }, recipient)

  unfoldable pub move_all_to :
      Parents
      → InternalPage K
      → InternalPage K
      → K
      → Outcome (Parents × InternalPage K × InternalPage K)
  unfolding copy_n_from set_key_at
  move_all_to parents p recipient middle_key = do
    let p = set_key_at p 0 middle_key
    (parents, recipient) ← copy_n_from parents recipient p.array p.size
    ok (parents, record p { size = 0 }, recipient)

  unfoldable pub copy_last_from :
      Parents → InternalPage K → K × ℕ → Outcome (Parents × InternalPage K)
  unfolding adopt
  copy_last_from parents p pair = do
    parents ← adopt fetches parents pair.1 p.page_id
    ok (parents, record p { array = update p.array p.size pair; size = p.size + 1 })

  unfoldable pub move_first_to_end_of :
      Parents
      → InternalPage K
      → InternalPage K
      → K
      → Outcome (Parents × InternalPage K × InternalPage K)
  unfolding copy_last_from set_key_at remove
  move_first_to_end_of parents p recipient middle_key = do
    let p = set_key_at p 0 middle_key
    (parents, recipient) ← copy_last_from parents recipient (p.array 0)
    ok (parents, remove p 0, recipient)

  -- `none` if the fuel of the loop runs out.
  unfoldable pub copy_first_from :
      ℕ → Parents → InternalPage K → K × ℕ → Option (Outcome (Parents × InternalPage K))
  unfolding adopt shift_up
  copy_first_from fuel parents p pair =
      let shifted = if p.size == 0 then some p.array else shift_up fuel p.array (p.size - 1) in
      elim shifted [
        | none ↦ none
        | some array ↦ some (do
          parents ← adopt fetches parents pair.1 p.page_id
          ok (parents, record p { array = update array 0 pair; size = p.size + 1 }))
      ]

  unfoldable pub move_last_to_front_of :
      ℕ
      → Parents
      → InternalPage K
      → InternalPage K
      → K
      → Option (Outcome (Parents × InternalPage K × InternalPage K))
  unfolding copy_first_from set_key_at
  move_last_to_front_of fuel parents p recipient middle_key =
      elim (copy_first_from fuel parents (set_key_at recipient 0 middle_key)
        (p.array (p.size - 1))) [
          | none ↦ none
          | some o ↦
              some (do
                (parents, recipient) ← o
                ok (parents, record p { size = p.size - 1 }, recipient))
        ]
