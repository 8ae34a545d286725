-- ===== src/BTree/Pages.antt =====
-- The buffer pool as the B+ tree sees it (src/include/buffer/buffer_pool_manager.h): the contents of
-- the pages by their ids, how often each is pinned, and how many frames hold a pinned page. FetchPage
-- and NewPage return a null pointer only if every frame holds a pinned page.
use lab.Common.{
  ℕ, ◌+◌, ◌-◌, Bool, not, ◌||◌, Option, none, some, Outcome, ok, out_of_memory, ◌==◌, ltb,
  if◌then◌else◌, update,
}
use lab.BTree.Leaf.{LeafPage}
use lab.BTree.Internal.{InternalPage, Parents}

-- A page of the tree, by its `IsLeafPage`.
pub data Node (K V : Type 0) : Type 0 where
  leaf : LeafPage K V → Node K V
  internal : InternalPage K → Node K V

pub record Pages (K V : Type 0) : Type 0 where
  pub frames : ℕ
  pub used : ℕ
  pub pins : ℕ → ℕ
  pub nodes : ℕ → Node K V
  pub next_page_id : ℕ

-- `if (page == nullptr) throw Exception("out of memory");`
abbrev pub or_throw {ℓ} : {A : Type ℓ} → Option A → Outcome A
or_throw (some a) = ok a
or_throw none = out_of_memory

module _ {K V : Type 0} where
  unfoldable pub can_fetch : Pages K V → ℕ → Bool
  can_fetch p id = not (p.pins id == 0) || ltb p.used p.frames

  -- FetchPage
  unfoldable pub fetch : Pages K V → ℕ → Option (Pages K V)
  unfolding can_fetch
  fetch p id =
      if can_fetch p id
      then some (record p {
        pins = update p.pins id (p.pins id + 1);
        used = if p.pins id == 0 then p.used + 1 else p.used;
      })
      else none

  -- UnpinPage
  unfoldable pub unpin : Pages K V → ℕ → Pages K V
  unpin p id = if p.pins id == 0 then p else record p {
    pins = update p.pins id (p.pins id - 1);
    used = if p.pins id == 1 then p.used - 1 else p.used;
  }

  -- NewPage: the id, and whether there is a frame. The new page has no contents before its Init.
  unfoldable pub new_page : Pages K V → Option (Pages K V × ℕ)
  new_page p =
      let id = p.next_page_id in
      if ltb p.used p.frames
      then some
          (record p { next_page_id = id + 1; pins = update p.pins id 1; used = p.used + 1 }, id)
      else none

  -- DeletePage of a page that a frame holds: it is wiped if nobody has it pinned.
  unfoldable pub delete_page : Pages K V → Node K V → ℕ → Pages K V
  delete_page p wiped id =
      if p.pins id == 0 then record p { nodes = update p.nodes id wiped } else p

  abbrev pub set_node : Pages K V → ℕ → Node K V → Pages K V
  set_node p id node = record p { nodes = update p.nodes id node }

  -- The header fields that both kinds of page share.
  abbrev pub parent_of : Node K V → Option ℕ
  parent_of (leaf l) = l.parent_page_id
  parent_of (internal p) = p.parent_page_id

  abbrev pub page_id_of : Node K V → ℕ
  page_id_of (leaf l) = l.page_id
  page_id_of (internal p) = p.page_id

  abbrev pub size_of : Node K V → ℕ
  size_of (leaf l) = l.size
  size_of (internal p) = p.size

  abbrev pub max_size_of : Node K V → ℕ
  max_size_of (leaf l) = l.max_size
  max_size_of (internal p) = p.max_size

  -- SetParentPageId
  abbrev pub set_parent : Node K V → Option ℕ → Node K V
  set_parent (leaf l) parent = leaf (record l { parent_page_id = parent })
  set_parent (internal p) parent = internal (record p { parent_page_id = parent })

  abbrev pub parents : Pages K V → Parents
  parents p id = parent_of (p.nodes id)

  abbrev pub with_parents : Pages K V → Parents → Pages K V
  with_parents p f = record p { nodes = λ id. set_parent (p.nodes id) (f id) }
