-- ===== src/Storage/HeaderPage.antt =====
-- src/storage/page/header_page.cpp: the names of tables and indexes with their root pages. A record
-- takes 36 bytes behind the 4 bytes of the count: 32 for the name and 4 for the root page id, which
-- no two records share, so the page is an array of records. A name is the list of its characters,
-- none of them NUL.
pub mod Roots
pub mod Operations
use lab.Common.{
  ℕ, zero, suc, ◌+◌, ◌-◌, ◌*◌, Bool, true, false, not, ◌&&◌, Option, none, some, List, [], ◌∷◌,
  Outcome, ok, assert_failed, undefined, ◌==◌, ltb, leb, if◌then◌else◌, update, length,
}
use lab.BTree.Entries.{shift_left}

abbrev pub Name : Type 0
Name = List ℕ

-- `strcmp(a, b) == 0`
unfoldable pub same : Name → Name → Bool
same [] [] = true
same [] (y ∷ ys) = false
same (x ∷ xs) [] = false
same (x ∷ xs) (y ∷ ys) = (x == y) && same xs ys

pub record HeaderPage : Type 0 where
  pub record_count : ℕ
  pub records : ℕ → Name × ℕ

-- The records that fit in the PAGE_SIZE bytes of a page.
abbrev pub capacity : ℕ
capacity = 113

-- The loop of `FindRecord` over the `n` records from `i` on; -1 is `none`.
unfoldable pub find_from : (ℕ → Name × ℕ) → Name → ℕ → ℕ → Option ℕ
unfolding same
find_from records name i zero = none
find_from records name i (suc n) =
    let rest = find_from records name (i + 1) n in if same (records i).0 name then some i else rest

unfoldable pub find_record : HeaderPage → Name → Option ℕ
unfolding find_from
find_record p name = find_from p.records name 0 p.record_count

-- `Init`
unfoldable pub init : HeaderPage → HeaderPage
init p = record p { record_count = 0 }

-- INVALID_PAGE_ID is `none`. There is no test of the room that is left: a record beyond the capacity
-- is written outside the page.
unfoldable pub insert_record : HeaderPage → Name → Option ℕ → Outcome (HeaderPage × Bool)
unfolding find_record
insert_record p name root_id = if not (ltb (length name) 32) then assert_failed else (elim root_id [
  | none ↦ assert_failed
  | some root ↦ elim (find_record p name) [
    | some i ↦ ok (p, false)
    | none ↦
        if leb capacity p.record_count
        then undefined
        else ok (
          record p {
            record_count = p.record_count + 1;
            records = update p.records p.record_count (name, root);
          },
          true,
        )
  ]
])

unfoldable pub delete_record : HeaderPage → Name → Outcome (HeaderPage × Bool)
unfolding find_record
delete_record p name = if p.record_count == 0 then assert_failed else (elim (find_record p name) [
  | none ↦ ok (p, false)
  | some index ↦ ok (
    record p {
      record_count = p.record_count - 1;
      records = shift_left p.records index (p.record_count - index - 1);
    },
    true,
  )
])

unfoldable pub update_record : HeaderPage → Name → ℕ → Outcome (HeaderPage × Bool)
unfolding find_record
update_record p name root_id =
    if not (ltb (length name) 32) then assert_failed else (elim (find_record p name) [
      | none ↦ ok (p, false)
      | some index ↦
          ok (record p { records = update p.records index ((p.records index).0, root_id) }, true)
    ])

unfoldable pub get_root_id : HeaderPage → Name → Outcome (Option ℕ)
unfolding find_record
get_root_id p name =
    if not (ltb (length name) 32)
    then assert_failed
    else (elim (find_record p name) [ none ↦ ok none | some index ↦ ok (some (p.records index).1) ])
