-- ===== src/Storage/TablePage.antt =====
-- src/storage/page/table_page.cpp: the slotted page. Slot `i` is the pair of `offsets i` and `sizes i`,
-- which lie at 24 + 8 * i, and the tuples lie in `bytes` from the free space pointer on; the two do not
-- meet on a valid page. Numbers of type uint32_t wrap. Nothing in the sources sets `enable_logging`, so
-- the branches that log and lock do not run and are left out. A byte is a number.
pub mod Valid
pub mod Insert
pub mod Update
pub mod Delete
pub mod Scan
mod Tests
use lab.Common.{
  ℕ, zero, suc, ◌+◌, ◌-◌, ◌*◌, ◌%◌, ◌^◌, Bool, true, false, not, ◌&&◌, ◌||◌, Option, none, some,
  Outcome, ok, assert_failed, ◌==◌, ltb, leb, if◌then◌else◌, update,
}

pub record Tuple : Type 0 where
  pub size : ℕ
  pub content : ℕ → ℕ

pub record TablePage : Type 0 where
  pub table_page_id : ℕ
  pub prev_page_id : Option ℕ
  pub next_page_id : Option ℕ
  pub free_space_pointer : ℕ
  pub tuple_count : ℕ
  pub offsets : ℕ → ℕ
  pub sizes : ℕ → ℕ
  pub bytes : ℕ → ℕ

-- uint32_t a + b - c
unfoldable pub sum32 : ℕ → ℕ → ℕ → ℕ
sum32 a b c = (a + b + (2 ^ 32 - c % 2 ^ 32)) % 2 ^ 32

-- `memcpy(dst + at, src, n)`
unfoldable pub memcpy : (ℕ → ℕ) → ℕ → (ℕ → ℕ) → ℕ → ℕ → ℕ
memcpy dst at src n j = if leb at j && ltb j (at + n) then src (j - at) else dst j

-- `memmove(dst + at, dst + from, n)`
unfoldable pub memmove : (ℕ → ℕ) → ℕ → ℕ → ℕ → ℕ → ℕ
unfolding memcpy
memmove dst at from n = memcpy dst at (λ i. dst (from + i)) n

-- `DELETE_MASK` is bit 31.
unfoldable pub is_deleted : ℕ → Bool
is_deleted tuple_size = leb (2 ^ 31) tuple_size || (tuple_size == 0)

unfoldable pub set_deleted_flag : ℕ → ℕ
set_deleted_flag tuple_size = if leb (2 ^ 31) tuple_size then tuple_size else tuple_size + 2 ^ 31

unfoldable pub unset_deleted_flag : ℕ → ℕ
unset_deleted_flag tuple_size = tuple_size % 2 ^ 31

unfoldable pub free_space_remaining : TablePage → ℕ
unfolding sum32
free_space_remaining p = sum32 p.free_space_pointer 0 (24 + 8 * p.tuple_count)

unfoldable pub init : TablePage → ℕ → ℕ → Option ℕ → TablePage
init p page_id page_size prev_page_id = record p {
  table_page_id = page_id;
  prev_page_id = prev_page_id;
  next_page_id = none;
  free_space_pointer = page_size;
  tuple_count = 0;
}

-- The first empty slot among the `n` from `i` on, or else the slot behind them.
unfoldable pub find_slot : (ℕ → ℕ) → ℕ → ℕ → ℕ
find_slot sizes i zero = i
find_slot sizes i (suc n) = let rest = find_slot sizes (i + 1) n in if sizes i == 0 then i else rest

-- InsertTuple once there is room: the page, and the slot.
unfoldable pub place_tuple : TablePage → Tuple → TablePage × ℕ
unfolding find_slot memcpy sum32
place_tuple p tuple =
    let i = find_slot p.sizes 0 p.tuple_count in
    let pointer = sum32 p.free_space_pointer 0 tuple.size in
    (
      record p {
        free_space_pointer = pointer;
        bytes = memcpy p.bytes pointer tuple.content tuple.size;
        offsets = update p.offsets i pointer;
        sizes = update p.sizes i tuple.size;
        tuple_count = if i == p.tuple_count then p.tuple_count + 1 else p.tuple_count;
      },
      i,
    )

-- The new page, and the slot of the tuple if there is room for it. The second test of the source asks
-- what the first one did.
unfoldable pub insert_tuple : TablePage → Tuple → Outcome (TablePage × Option ℕ)
unfolding free_space_remaining place_tuple
insert_tuple p tuple =
    if tuple.size == 0
    then assert_failed
    else (if ltb (free_space_remaining p) (tuple.size + 8)
        then ok (p, none)
        else (let placed = place_tuple p tuple in ok (placed.0, some placed.1)))

unfoldable pub mark_delete : TablePage → ℕ → TablePage × Bool
unfolding is_deleted set_deleted_flag
mark_delete p slot_num =
    if leb p.tuple_count slot_num || is_deleted (p.sizes slot_num)
    then (p, false)
    else (record p { sizes = update p.sizes slot_num (set_deleted_flag (p.sizes slot_num)) }, true)

-- The tuple in a slot of the given size.
unfoldable pub copy_out : TablePage → ℕ → ℕ → Tuple
copy_out p slot_num size = record { size = size; content = λ i. p.bytes (p.offsets slot_num + i) }

-- "Update all tuple offsets" of UpdateTuple.
unfoldable pub shift_offsets : TablePage → ℕ → ℕ → ℕ → ℕ → ℕ
unfolding sum32
shift_offsets p below up down i =
    if ltb i p.tuple_count && (not (p.sizes i == 0) && ltb (p.offsets i) below)
    then sum32 (p.offsets i) up down
    else p.offsets i

-- UpdateTuple behind its tests.
unfoldable pub replace_tuple : TablePage → Tuple → ℕ → Outcome TablePage
unfolding memmove memcpy shift_offsets sum32
replace_tuple p new_tuple slot_num =
    let tuple_offset = p.offsets slot_num in
    let tuple_size = p.sizes slot_num in
    let pointer = p.free_space_pointer in
    let moved =
      memmove p.bytes (pointer + tuple_size - new_tuple.size) pointer (tuple_offset - pointer) in
    let q = record p {
      free_space_pointer = sum32 pointer tuple_size new_tuple.size;
      bytes =
          memcpy moved (tuple_offset + tuple_size - new_tuple.size) new_tuple.content
            new_tuple.size;
      sizes = update p.sizes slot_num new_tuple.size;
    } in
    if ltb tuple_offset pointer
    then assert_failed
    else ok (record q {
      offsets = shift_offsets q (sum32 tuple_offset tuple_size 0) tuple_size new_tuple.size;
    })

-- The new page and the old tuple; without it, the update is refused.
unfoldable pub update_tuple : TablePage → Tuple → ℕ → Outcome (TablePage × Option Tuple)
unfolding is_deleted free_space_remaining sum32 replace_tuple copy_out
update_tuple p new_tuple slot_num =
    if new_tuple.size == 0
    then assert_failed
    else (if leb p.tuple_count slot_num || is_deleted (p.sizes slot_num)
        then ok (p, none)
        else (if ltb (sum32 (free_space_remaining p) (p.sizes slot_num) 0) new_tuple.size
            then ok (p, none)
            else (elim (replace_tuple p new_tuple slot_num) [
              | ok q ↦ ok (q, some (copy_out p slot_num (p.sizes slot_num)))
              | _ ↦ assert_failed
            ])))

-- The size of the tuple that ApplyDelete removes: a marked one, or one whose insertion is rolled back.
unfoldable pub deleted_size : ℕ → ℕ
unfolding is_deleted unset_deleted_flag
deleted_size tuple_size =
    if is_deleted tuple_size then unset_deleted_flag tuple_size else tuple_size

unfoldable pub apply_delete : TablePage → ℕ → Outcome TablePage
unfolding deleted_size memmove shift_offsets sum32
apply_delete p slot_num =
    let tuple_offset = p.offsets slot_num in
    let tuple_size = deleted_size (p.sizes slot_num) in
    let pointer = p.free_space_pointer in
    let q = record p {
      free_space_pointer = sum32 pointer tuple_size 0;
      bytes = memmove p.bytes (pointer + tuple_size) pointer (tuple_offset - pointer);
      sizes = update p.sizes slot_num 0;
      offsets = update p.offsets slot_num 0;
    } in
    if leb p.tuple_count slot_num
    then assert_failed
    else (if ltb tuple_offset pointer
        then assert_failed
        else ok (record q { offsets = shift_offsets q tuple_offset tuple_size 0 }))

unfoldable pub rollback_delete : TablePage → ℕ → Outcome TablePage
unfolding is_deleted unset_deleted_flag
rollback_delete p slot_num =
    if leb p.tuple_count slot_num
    then assert_failed
    else (if is_deleted (p.sizes slot_num)
        then ok
            (record p { sizes = update p.sizes slot_num (unset_deleted_flag (p.sizes slot_num)) })
        else ok p)

unfoldable pub get_tuple : TablePage → ℕ → Option Tuple
unfolding is_deleted copy_out
get_tuple p slot_num =
    if leb p.tuple_count slot_num || is_deleted (p.sizes slot_num)
    then none
    else some (copy_out p slot_num (p.sizes slot_num))

-- The first slot that is not deleted, of the `n` from `i` on.
unfoldable pub next_live : (ℕ → ℕ) → ℕ → ℕ → Option ℕ
unfolding is_deleted
next_live sizes i zero = none
next_live sizes i (suc n) =
    let rest = next_live sizes (i + 1) n in if not (is_deleted (sizes i)) then some i else rest

unfoldable pub get_first_tuple_rid : TablePage → Option ℕ
unfolding next_live
get_first_tuple_rid p = next_live p.sizes 0 p.tuple_count

-- The slot behind `cur`, on the same page.
unfoldable pub get_next_tuple_rid : TablePage → ℕ → Option ℕ
unfolding next_live
get_next_tuple_rid p cur = next_live p.sizes (cur + 1) (p.tuple_count - (cur + 1))
