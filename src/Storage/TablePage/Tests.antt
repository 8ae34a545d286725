-- ===== src/Storage/TablePage/Tests.antt =====
-- The table page on concrete inputs.
use lab.Common.{ℕ, ◌+◌, ◌<◌, ◌≤◌, ◌≡◌, ◌⊎◌, refl, false, none, some, ok, arith}
use lab.Storage.TablePage.{
  Tuple, TablePage, is_deleted, free_space_remaining, insert_tuple, update_tuple, apply_delete,
}
use lab.Storage.TablePage.Valid.{IsValid, IsUsed, KeepsOthers, len}
use lab.Storage.TablePage.Insert.{Inserted, insert_tuple-Inserted}
use lab.Storage.TablePage.Update.{Updated, Refused, update_tuple-Updated}
use lab.Storage.TablePage.Delete.{apply_delete-KeepsOthers}

-- A table page with one tuple of six bytes.
abbrev slotted : TablePage
slotted = record {
  table_page_id = 3;
  prev_page_id = none;
  next_page_id = none;
  free_space_pointer = 4090;
  tuple_count = 1;
  offsets = λ i. 4090;
  sizes = λ i. 6;
  bytes = λ i. 7;
}

abbrev word : Tuple
word = record { size = 4; content = λ i. i }

slotted-IsValid : IsValid slotted 4096
slotted-IsValid = record {
  header = omega arith;
  in_page = omega arith;
  small = omega arith;
  long = λ i u. ground arith;
  behind = λ i u. ground arith;
  before = λ i u. ground arith;
  apart = λ i j u w d. absurd (d (omega (arith, u.in_count, w.in_count)));
}

slotted-IsUsed : IsUsed slotted 0
slotted-IsUsed = record { in_count = omega arith; not_empty = λ e. omega arith }

some_room : word.size + 8 ≤ free_space_remaining slotted
unfolding free_space_remaining
some_room = omega arith

is_live : is_deleted (slotted.sizes 0) ≡ false
unfolding is_deleted
is_live = refl

insert_tuple-Inserted_example :
    ((q : TablePage) × (slot : ℕ) × (insert_tuple slotted word ≡ ok (q, some slot))
      × Inserted slotted 4096 slotted-IsValid word q slot)
    ⊎ ((free_space_remaining slotted < word.size + 8)
        × (insert_tuple slotted word ≡ ok (slotted, none)))
insert_tuple-Inserted_example =
    insert_tuple-Inserted slotted 4096 slotted-IsValid word (omega arith)

update_tuple-Updated_example :
    ((q : TablePage) × (old : Tuple) × (update_tuple slotted word 0 ≡ ok (q, some old))
      × Updated slotted 4096 word 0 q old)
    ⊎ (Refused slotted word 0 × (update_tuple slotted word 0 ≡ ok (slotted, none)))
update_tuple-Updated_example =
    update_tuple-Updated slotted 4096 slotted-IsValid word (omega arith) 0

apply_delete-KeepsOthers_example :
    (q : TablePage) × (apply_delete slotted 0 ≡ ok q)
    × IsValid q 4096
    × (q.sizes 0 ≡ 0)
    × (q.free_space_pointer ≡ slotted.free_space_pointer + len slotted 0)
    × KeepsOthers slotted q 0
apply_delete-KeepsOthers_example =
    apply_delete-KeepsOthers slotted 4096 slotted-IsValid 0 slotted-IsUsed
