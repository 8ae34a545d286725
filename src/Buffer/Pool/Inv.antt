-- ===== src/Buffer/Pool/Inv.antt =====
-- The invariant of the buffer pool, and the page contents that it stands for.
use lab.Common.{
  ℕ, ◌≤◌, ◌<◌, ◌≡◌, ◌≢◌, true, false, Option, none, some, List, [], contains, Distinct, lookup,
  length,
}
use lab.Buffer.Replacer.{Replacer}
use lab.Buffer.Pool.{BufferPool}
use lab.Storage.Disk.{page_at, page_limit}

module _ (R : Replacer) {D : Type 0} (zeros : D) where
  -- What page `id` holds for the clients: its frame, if it is resident, and else the disk.
  unfoldable pub view : BufferPool R D → ℕ → D
  view p id = elim (lookup id p.page_table) [
    | some f ↦ (p.pages f).content
    | none ↦ page_at zeros p.disk.file id
  ]

  -- `l` are the frames that the replacer may evict.
  pub record Inv (p : BufferPool R D) (l : List ℕ) : Type 0 where
    pub holds : R.Holds p.replacer l
    -- the page table and the pages agree
    pub mapped :
        (id f : ℕ)
        → lookup id p.page_table ≡ some f
        → (f < p.pool_size) × ((p.pages f).page_id ≡ some id) × (id < p.disk.next_page_id)
    -- an evictable frame holds a resident page that nobody has pinned
    pub evictable :
        (f : ℕ)
        → contains f l ≡ true
        → (id : ℕ) × (lookup id p.page_table ≡ some f) × ((p.pages f).pin_count ≡ 0)
    -- and every such frame is evictable
    pub idle :
        (id f : ℕ)
        → lookup id p.page_table ≡ some f
        → (p.pages f).pin_count ≡ 0
        → contains f l ≡ true
    pub free :
        (f : ℕ)
        → contains f p.free_list ≡ true
        → (f < p.pool_size) × ((p.pages f).pin_count ≡ 0) × ((p.pages f).is_dirty ≡ false)
    pub free_unmapped : (f id : ℕ) → contains f p.free_list ≡ true → lookup id p.page_table ≢ some f
    pub free_distinct : Distinct p.free_list
    -- an unpinned page that is not dirty is the page on disk
    pub clean :
        (id f : ℕ)
        → lookup id p.page_table ≡ some f
        → (p.pages f).pin_count ≡ 0
        → (p.pages f).is_dirty ≡ false
        → (p.pages f).content ≡ page_at zeros p.disk.file id
    pub file_fits : length p.disk.file ≤ page_limit
    pub ids_fit : p.disk.next_page_id ≤ page_limit

  -- Between the choice of a frame and its use: nothing refers to the frame `f`.
  pub record Ready (p : BufferPool R D) (l : List ℕ) (f : ℕ) : Type 0 where
    pub inv : Inv p l
    pub in_range : f < p.pool_size
    pub unpinned : (p.pages f).pin_count ≡ 0
    pub not_dirty : (p.pages f).is_dirty ≡ false
    pub not_free : contains f p.free_list ≡ false
    pub unmapped : (id : ℕ) → lookup id p.page_table ≢ some f

  -- A change of frames that clients cannot see: every page holds what it held, a pinned page stays
  -- where it is, and no page becomes resident.
  pub record Keeps (p q : BufferPool R D) : Type 0 where
    pub views : (id : ℕ) → view q id ≡ view p id
    pub pinned :
        (id g : ℕ)
        → lookup id p.page_table ≡ some g
        → 0 < (p.pages g).pin_count
        → (lookup id q.page_table ≡ some g) × (q.pages g ≡ p.pages g)
    pub absent : (id : ℕ) → lookup id p.page_table ≡ none → lookup id q.page_table ≡ none
    pub same_size : q.pool_size ≡ p.pool_size
    pub same_next : q.disk.next_page_id ≡ p.disk.next_page_id
    pub same_latch : q.latched ≡ p.latched

  -- What a search for a frame comes to: a frame, or none if no frame is free or evictable.
  abbrev pub Taken : BufferPool R D → BufferPool R D → List ℕ → List ℕ → Option ℕ → Type 0
  Taken p q l l' none = (p.free_list ≡ []) × (l ≡ []) × Inv q l'
  Taken p q l l' (some f) = Ready q l' f
