-- ===== src/Storage/TablePage/Valid.antt =====
-- The invariant of a table page, and the tuples that it holds.
use lab.Common.{ℕ, ◌+◌, ◌-◌, ◌*◌, ◌%◌, ◌^◌, ◌≤◌, ◌<◌, ◌≡◌, ◌≢◌, ◌⊎◌, false, Option, List, arith}
use lab.BTree.Entries.{entries, entries_ext}
use lab.Storage.TablePage.{Tuple, TablePage, sum32, is_deleted, init, copy_out}

pub sum32_lem : (a b c : ℕ) → c ≤ a + b → a + b < c + 2 ^ 32 → c < 2 ^ 32 → sum32 a b c ≡ a + b - c
unfolding sum32
sum32_lem a b c h k l = omega arith

-- The length of the tuple in a slot, marked or not; an empty slot has length 0.
abbrev pub len : TablePage → ℕ → ℕ
len p i = p.sizes i % 2 ^ 31

-- A slot in use: its tuple may be marked as deleted.
pub record IsUsed (p : TablePage) (i : ℕ) : Type 0 where
  pub in_count : i < p.tuple_count
  pub not_empty : p.sizes i ≢ 0

-- Slots and tuples do not meet, the tuples lie in the page behind the free space pointer, and no two of
-- them meet.
pub record IsValid (p : TablePage) (page_size : ℕ) : Type 0 where
  pub header : 24 + 8 * p.tuple_count ≤ p.free_space_pointer
  pub in_page : p.free_space_pointer ≤ page_size
  pub small : page_size ≤ 4096
  pub long : (i : ℕ) → IsUsed p i → 0 < len p i
  pub behind : (i : ℕ) → IsUsed p i → p.free_space_pointer ≤ p.offsets i
  pub before : (i : ℕ) → IsUsed p i → p.offsets i + len p i ≤ page_size
  pub apart :
      (i j : ℕ)
      → IsUsed p i
      → IsUsed p j
      → i ≢ j
      → (p.offsets i + len p i ≤ p.offsets j) ⊎ (p.offsets j + len p j ≤ p.offsets i)

pub init-IsValid :
    (p : TablePage) (page_id page_size : ℕ) (prev_page_id : Option ℕ)
    → 24 ≤ page_size
    → page_size ≤ 4096
    → IsValid (init p page_id page_size prev_page_id) page_size
unfolding init
init-IsValid p page_id page_size prev_page_id a b = record {
  header = omega arith;
  in_page = omega arith;
  small = b;
  long = λ i u. absurd (no_slot u.in_count);
  behind = λ i u. absurd (no_slot u.in_count);
  before = λ i u. absurd (no_slot u.in_count);
  apart = λ i j u w d. absurd (no_slot u.in_count);
}
  where
    no_slot : {i : ℕ} → i < 0 → ⊥
    no_slot h = omega arith

-- The bytes of the tuple in a slot.
unfoldable pub tuple_at : TablePage → ℕ → List ℕ
tuple_at p i = entries p.bytes (p.offsets i) (len p i)

-- The bytes of a tuple.
unfoldable pub bytes_of : Tuple → List ℕ
bytes_of t = entries t.content 0 t.size

-- A tuple that is not deleted is read as it is.
pub bytes_of-copy_out :
    (p : TablePage) (slot : ℕ)
    → is_deleted (p.sizes slot) ≡ false
    → bytes_of (copy_out p slot (p.sizes slot)) ≡ tuple_at p slot
unfolding bytes_of copy_out tuple_at is_deleted
bytes_of-copy_out p slot live =
    let same : len p slot ≡ p.sizes slot = ground arith in
    rw same (
      entries_ext (λ i. p.bytes (p.offsets slot + i)) p.bytes 0 (p.offsets slot) (p.sizes slot)
        (λ j l. ground arith))

-- From the one page to the other all slots but `slot` keep their tuples and marks.
pub record KeepsOthers (p q : TablePage) (slot : ℕ) : Type 0 where
  pub same_sizes : (i : ℕ) → i < p.tuple_count → i ≢ slot → q.sizes i ≡ p.sizes i
  pub same_tuples : (i : ℕ) → IsUsed p i → i ≢ slot → tuple_at q i ≡ tuple_at p i
