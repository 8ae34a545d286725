-- ===== src/Buffer/Lru.antt =====
-- src/buffer/lru_replacer.cpp and include/buffer/lru_replacer.h: a circular doubly linked list of
-- nodes under a sentinel `head`, whose `id` counts the nodes, and a table from frames to nodes.
-- The nodes stand on an explicit heap; a load, a store or a `delete` at an address that holds no
-- node is undefined. Every method holds the mutex throughout, so it is one step.
pub mod Ring
pub mod Holds
pub mod Remove
pub mod Refines
pub mod Contract
use lab.Common.{
  ℕ, ◌+◌, ◌-◌, Bool, true, false, Option, none, some, List, [], ◌∷◌, Outcome, ok, undefined, ◌>>=◌,
  ◌>>◌, ◌==◌, if◌then◌else◌, update, lookup, insert, erase,
}

-- The fields `id`, `next`, `prev` of `struct node` at each address, the addresses that hold a node,
-- and the allocator's next address (an address is not used twice).
pub record LruReplacer : Type 0 where
  pub nums_pages : ℕ
  pub tables : List (ℕ × ℕ)
  pub head : ℕ
  pub id : ℕ → ℕ
  pub next : ℕ → ℕ
  pub prev : ℕ → ℕ
  pub live : ℕ → Bool
  pub fresh : ℕ

unfoldable pub load : LruReplacer → (ℕ → ℕ) → ℕ → Outcome ℕ
load s field p = if s.live p then ok (field p) else undefined

unfoldable pub store_id : LruReplacer → ℕ → ℕ → Outcome LruReplacer
store_id s p v = if s.live p then ok (record s { id = update s.id p v }) else undefined

unfoldable pub store_next : LruReplacer → ℕ → ℕ → Outcome LruReplacer
store_next s p v = if s.live p then ok (record s { next = update s.next p v }) else undefined

unfoldable pub store_prev : LruReplacer → ℕ → ℕ → Outcome LruReplacer
store_prev s p v = if s.live p then ok (record s { prev = update s.prev p v }) else undefined

-- `new node(id)`: both links of a new node point to itself.
unfoldable pub new_node : LruReplacer → ℕ → LruReplacer × ℕ
new_node s v = (
  record s {
    id = update s.id s.fresh v;
    next = update s.next s.fresh s.fresh;
    prev = update s.prev s.fresh s.fresh;
    live = update s.live s.fresh true;
    fresh = s.fresh + 1;
  },
  s.fresh,
)

unfoldable pub delete_node : LruReplacer → ℕ → Outcome LruReplacer
delete_node s p = if s.live p then ok (record s { live = update s.live p false }) else undefined

-- `tables.erase(tables.find(f))`: to erase the end iterator is undefined.
unfoldable pub erase_found : LruReplacer → ℕ → Outcome LruReplacer
erase_found s f = elim (lookup f s.tables) [
  | none ↦ undefined
  | some _ ↦ ok (record s { tables = erase f s.tables })
]

-- The constructor.
unfoldable pub init : ℕ → LruReplacer
unfolding new_node
init num_pages =
    let (s, p) =
      new_node
        (record {
          nums_pages = num_pages;
          tables = [];
          head = 0;
          id = λ _. 0;
          next = λ _. 0;
          prev = λ _. 0;
          live = λ _. false;
          fresh = 0;
        })
        0 in
    record s { head = p }

-- `head->id--`: the count never falls below zero, since a node is on the list.
unfoldable pub count_down : LruReplacer → Outcome LruReplacer
unfolding load store_id
count_down s = do n ← load s s.id s.head; store_id s s.head (n - 1)

-- The body of `Victim` after its test, for the node `victim`.
unfoldable pub evict : LruReplacer → ℕ → Outcome (LruReplacer × Option ℕ)
unfolding load store_next store_prev erase_found count_down delete_node
evict s victim = do
  frame_id ← load s s.id victim
  before ← load s s.prev victim
  s ← store_prev s s.head before
  before ← load s s.prev victim
  s ← store_next s before s.head
  s ← store_prev s victim victim
  s ← store_next s victim victim
  s ← erase_found s frame_id
  s ← count_down s
  s ← delete_node s victim
  ok (s, some frame_id)

unfoldable pub victim : LruReplacer → Outcome (LruReplacer × Option ℕ)
unfolding load evict
victim s = do
  first ← load s s.next s.head
  if first == s.head then ok (s, none) else (do last ← load s s.prev s.head; evict s last)

-- The body of `Pin` for the node `n` that the table holds.
unfoldable pub unlink : LruReplacer → ℕ → ℕ → Outcome LruReplacer
unfolding load store_next store_prev erase_found count_down delete_node
unlink s frame_id n = do
  after ← load s s.next n
  before ← load s s.prev n
  s ← store_prev s after before
  before ← load s s.prev n
  after ← load s s.next n
  s ← store_next s before after
  s ← delete_node s n
  s ← erase_found s frame_id
  count_down s

unfoldable pub pin : LruReplacer → ℕ → Outcome LruReplacer
unfolding unlink
pin s frame_id = elim (lookup frame_id s.tables) [ none ↦ ok s | some n ↦ unlink s frame_id n ]

-- The body of `Unpin` for a frame that has no node.
unfoldable pub push_front : LruReplacer → ℕ → Outcome LruReplacer
unfolding new_node load store_next store_prev store_id
push_front s frame_id = do
  let (s, n) = new_node s frame_id
  first ← load s s.next s.head
  s ← store_next s n first
  s ← store_next s s.head n
  s ← store_prev s n s.head
  after ← load s s.next n
  s ← store_prev s after n
  let s = record s { tables = insert frame_id n s.tables }
  count ← load s s.id s.head
  store_id s s.head (count + 1)

unfoldable pub unpin : LruReplacer → ℕ → Outcome LruReplacer
unfolding push_front
unpin s frame_id = elim (lookup frame_id s.tables) [ some _ ↦ ok s | none ↦ push_front s frame_id ]

unfoldable pub size : LruReplacer → Outcome ℕ
unfolding load
size s = load s s.id s.head
