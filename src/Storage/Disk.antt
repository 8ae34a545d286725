-- ===== src/Storage/Disk.antt =====
-- src/storage/disk/disk_manager.cpp: pages of the database file. The file is a list of whole pages
-- of any type `D`, since every write is of PAGE_SIZE bytes; the streams do not fail. `ReadPage`
-- computes the offset and the file's size in `int`, and this is written out.
use lab.Common.{
  ℕ, zero, suc, ◌+◌, ◌*◌, ◌%◌, ◌^◌, ◌≤◌, ◌<◌, ◌≡◌, refl, Bool, true, List, [], ◌∷◌, arith, Outcome,
  ok, undefined, ltb, leb, ◌==◌, if◌then◌else◌, length,
}

abbrev pub page_size : ℕ
page_size = 4096

-- The file holds fewer pages than this as long as offsets fit in an `int`.
abbrev pub page_limit : ℕ
page_limit = 524287

pub record DiskManager (D : Type 0) : Type 0 where
  pub next_page_id : ℕ
  pub num_writes : ℕ
  pub file : List D

-- `AllocatePage`
unfoldable pub allocate_page : {D : Type 0} → DiskManager D → DiskManager D × ℕ
allocate_page d = (record d { next_page_id = d.next_page_id + 1 }, d.next_page_id)

-- `GetFileSize(file) < offset`, the size converted to a signed 32-bit integer.
unfoldable pub beyond : ℕ → ℕ → Bool
beyond pages offset =
    let size = (pages * page_size) % 2 ^ 32 in if ltb size (2 ^ 31) then ltb size offset else true

module _ {D : Type 0} (zeros : D) where
  -- A write past the end leaves zeros between.
  unfoldable pub write_at : List D → ℕ → D → List D
  write_at [] zero v = v ∷ []
  write_at [] (suc i) v = zeros ∷ write_at [] i v
  write_at (x ∷ xs) zero v = v ∷ xs
  write_at (x ∷ xs) (suc i) v = x ∷ write_at xs i v

  -- The page at an index; what the file does not hold reads as zeros.
  unfoldable pub page_at : List D → ℕ → D
  page_at [] i = zeros
  page_at (x ∷ xs) zero = x
  page_at (x ∷ xs) (suc i) = page_at xs i

  unfoldable pub write_page : DiskManager D → ℕ → D → DiskManager D
  write_page d page_id page_data = record d {
    num_writes = d.num_writes + 1;
    file = write_at d.file page_id page_data;
  }

  -- The new contents of the buffer `page_data`. An `int` offset that overflows is undefined.
  unfoldable pub read_page : DiskManager D → ℕ → D → Outcome D
  unfolding beyond
  read_page d page_id page_data =
      let offset = page_id * page_size in
      if leb (2 ^ 31) offset
      then undefined
      else (if beyond (length d.file) offset then ok page_data else ok (page_at d.file page_id))

  pub page_at-write_at :
      (xs : List D) (i j : ℕ) (v : D)
      → page_at (write_at xs i v) j ≡ (if i == j then v else page_at xs j)
  unfolding page_at write_at
  page_at-write_at [] zero zero v = refl
  page_at-write_at [] zero (suc j) v = ground arith
  page_at-write_at [] (suc i) zero v = ground arith
  page_at-write_at [] (suc i) (suc j) v = ground (arith, page_at-write_at [] i j v)
  page_at-write_at (x ∷ xs) zero zero v = refl
  page_at-write_at (x ∷ xs) zero (suc j) v = ground arith
  page_at-write_at (x ∷ xs) (suc i) zero v = ground arith
  page_at-write_at (x ∷ xs) (suc i) (suc j) v = ground (arith, page_at-write_at xs i j v)

  pub length-write_at-le :
      (xs : List D) (i : ℕ) (v : D) (n : ℕ) → length xs ≤ n → i < n → length (write_at xs i v) ≤ n
  unfolding write_at
  length-write_at-le [] zero v n h k = omega arith
  length-write_at-le [] (suc i) v (suc n) h k =
      omega (arith, length-write_at-le [] i v n (omega arith) (omega arith))
  length-write_at-le [] (suc i) v zero h k = absurd (omega arith)
  length-write_at-le (x ∷ xs) zero v n h k = omega arith
  length-write_at-le (x ∷ xs) (suc i) v (suc n) h k =
      omega (arith, length-write_at-le xs i v n (omega arith) (omega arith))
  length-write_at-le (x ∷ xs) (suc i) v zero h k = absurd (omega arith)

  page_at_beyond : (xs : List D) (i : ℕ) → length xs ≤ i → page_at xs i ≡ zeros
  unfolding page_at
  page_at_beyond [] i h = refl
  page_at_beyond (x ∷ xs) zero h = absurd (omega arith)
  page_at_beyond (x ∷ xs) (suc i) h = page_at_beyond xs i (omega arith)

  -- Below the limit a read into a zeroed buffer gives the page of the file.
  pub read_page-page_at :
      (d : DiskManager D) (i : ℕ)
      → length d.file ≤ page_limit
      → i < page_limit
      → read_page d i zeros ≡ ok (page_at d.file i)
  unfolding read_page
  read_page-page_at d i h k = ground (arith, page_at_beyond d.file i)
