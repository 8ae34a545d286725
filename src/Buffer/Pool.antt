-- ===== src/Buffer/Pool.antt =====
-- src/buffer/buffer_pool_manager.cpp, over any Replacer and any type `D` of page contents. A page
-- pointer that a method returns is the index of its frame. Page ids are not negative;
-- INVALID_PAGE_ID is `none`. Every method holds `latch_` throughout, so it is one step; to lock the
-- latch again is a deadlock.
pub mod Inv
pub mod Frames
pub mod Fetch
pub mod Unpin
pub mod New
pub mod Flush
pub mod Defects
pub mod History
pub mod Init
use mathlib.Core.List.{◌++◌}
use lab.Common.{
  ℕ, zero, suc, ◌+◌, ◌-◌, Bool, true, false, not, ◌||◌, Option, none, some, List, [], ◌∷◌, Outcome,
  ok, assert_failed, deadlock, undefined, ◌>>=◌, ◌>>◌, leb, ◌==◌, if◌then◌else◌, update, lookup,
  insert, erase,
}
use lab.Buffer.Replacer.{Replacer}
use lab.Storage.Disk.{DiskManager, allocate_page, write_page, read_page}

-- src/include/storage/page/page.h
pub record Page (D : Type 0) : Type 0 where
  pub content : D
  pub page_id : Option ℕ
  pub pin_count : ℕ
  pub is_dirty : Bool

pub record BufferPool (R : Replacer) (D : Type 0) : Type 0 where
  pub pool_size : ℕ
  pub pages : ℕ → Page D
  pub page_table : List (ℕ × ℕ)
  pub free_list : List ℕ
  pub replacer : R.State
  pub disk : DiskManager D
  pub latched : Bool

-- `free_list_` of a new pool: 0, …, n - 1
pub range : ℕ → ℕ → List ℕ
range i zero = []
range i (suc n) = i ∷ range (i + 1) n

module _ (R : Replacer) {D : Type 0} (zeros : D) where
  abbrev pub Pool : Type 0
  Pool = BufferPool R D

  -- The constructor.
  unfoldable pub init : ℕ → R.State → DiskManager D → Pool
  unfolding range
  init pool_size replacer disk = record {
    pool_size = pool_size;
    pages = λ _. record { content = zeros; page_id = none; pin_count = 0; is_dirty = false };
    page_table = [];
    free_list = range 0 pool_size;
    replacer = replacer;
    disk = disk;
    latched = false;
  }

  -- `std::lock_guard<std::mutex> lock(latch_)` around a body.
  unfoldable pub with_latch : {A : Type 0} → (Pool → Outcome (Pool × A)) → Pool → Outcome (Pool × A)
  with_latch body p =
      if p.latched
      then deadlock
      else (do (p', a) ← body (record p { latched = true }); ok (record p' { latched = false }, a))

  abbrev pub set_page : Pool → ℕ → Page D → Pool
  set_page p f page = record p { pages = update p.pages f page }

  -- A victim frame is written back if it is dirty, and leaves the page table.
  unfoldable pub evict : Pool → ℕ → Outcome (Pool × Option ℕ)
  evict p f = elim (p.pages f).page_id [
    | none ↦ assert_failed
    | some old ↦
        let page = p.pages f in
        let written = record p {
          pages = update p.pages f (record page { is_dirty = false });
          disk = write_page zeros p.disk old page.content;
        } in
        let q = if page.is_dirty then written else p in
        ok (record q { page_table = erase old q.page_table }, some f)
  ]

  -- A frame from the free list, or else from the replacer (the same text in FetchPageImpl and
  -- NewPageImpl).
  unfoldable pub take_frame : Pool → Outcome (Pool × Option ℕ)
  unfolding evict
  take_frame p = elim p.free_list [
    | f ∷ rest ↦ ok (record p { free_list = rest }, some f)
    | [] ↦ do
      (r, m) ← R.victim p.replacer
      let q = record p { replacer = r }
      elim m [ none ↦ ok (q, none) | some f ↦ evict q f ]
  ]

  -- The end of FetchPageImpl: ResetMemory, ReadPage, the page's metadata, and the page table.
  unfoldable pub load_page : Pool → ℕ → ℕ → Outcome (Pool × Option ℕ)
  load_page p f page_id = do
    content ← read_page zeros p.disk page_id zeros
    let page = p.pages f
    let loaded = record page {
      content = content;
      page_id = some page_id;
      pin_count = page.pin_count + 1;
    }
    ok (
      record p { pages = update p.pages f loaded; page_table = insert page_id f p.page_table },
      some f,
    )

  -- The branch of FetchPageImpl for a resident page.
  unfoldable pub pin_frame : Pool → ℕ → Outcome (Pool × Option ℕ)
  pin_frame p f = do
    let page = p.pages f
    r ← R.pin p.replacer f
    ok (
      record p {
        pages = update p.pages f (record page { pin_count = page.pin_count + 1 });
        replacer = r;
      },
      some f,
    )

  unfoldable pub fetch_page_impl : ℕ → Pool → Outcome (Pool × Option ℕ)
  unfolding take_frame load_page pin_frame
  fetch_page_impl page_id p = elim (lookup page_id p.page_table) [
    | some f ↦ pin_frame p f
    | none ↦ do
      (q, m) ← take_frame p
      elim m [ none ↦ ok (q, none) | some f ↦ load_page q f page_id ]
  ]

  -- The body of UnpinPageImpl for a frame with a positive pin count.
  unfoldable pub drop_pin : Pool → ℕ → Bool → Outcome (Pool × Bool)
  drop_pin p f dirty = do
    let page = p.pages f
    let left = page.pin_count - 1
    r ← (if left == 0 then R.unpin p.replacer f else ok p.replacer)
    ok (
      record p {
        pages =
            update p.pages f (record page { pin_count = left; is_dirty = page.is_dirty || dirty });
        replacer = r;
      },
      true,
    )

  unfoldable pub unpin_page_impl : ℕ → Bool → Pool → Outcome (Pool × Bool)
  unfolding drop_pin
  unpin_page_impl page_id dirty p = elim (lookup page_id p.page_table) [
    | none ↦ ok (p, false)
    | some f ↦ if leb (p.pages f).pin_count 0 then ok (p, false) else drop_pin p f dirty
  ]

  -- `page_table_[page_id]`: a missing id is entered with frame 0.
  unfoldable pub slot : Pool → ℕ → Pool × ℕ
  slot p page_id = elim (lookup page_id p.page_table) [
    | some f ↦ (p, f)
    | none ↦ (record p { page_table = insert page_id 0 p.page_table }, 0)
  ]

  unfoldable pub flush_page_impl : ℕ → Pool → Outcome (Pool × Bool)
  unfolding slot
  flush_page_impl page_id p =
      let (q, f) = slot p page_id in
      let page = q.pages f in
      ok (
        record q {
          pages = update q.pages f (record page { is_dirty = false });
          disk = write_page zeros q.disk page_id page.content;
        },
        true,
      )

  -- NewPageImpl gives the page id, and the frame if there was one.
  unfoldable pub new_page_impl : Pool → Outcome (Pool × (ℕ × Option ℕ))
  unfolding take_frame
  new_page_impl p = do
    let (disk, page_id) = allocate_page p.disk
    (q, m) ← take_frame (record p { disk = disk })
    elim m [
      | none ↦ ok (q, (page_id, none))
      | some f ↦ ok (
        record q {
          page_table = insert page_id f q.page_table;
          pages =
              update q.pages f (record {
                content = zeros;
                page_id = some page_id;
                pin_count = 1;
                is_dirty = false;
              });
        },
        (page_id, some f),
      )
    ]

  unfoldable pub delete_page_impl : ℕ → Pool → Outcome (Pool × Bool)
  unfolding slot
  delete_page_impl page_id p =
      let (q, f) = slot p page_id in
      elim (lookup page_id q.page_table) [
        | none ↦ ok (q, true)
        | some _ ↦ if not ((q.pages f).pin_count == 0) then ok (q, false) else (do
          r ← R.pin q.replacer f
          ok (
            record q {
              pages =
                  update q.pages f
                    (record { content = zeros; page_id = none; pin_count = 0; is_dirty = false });
              replacer = r;
              free_list = q.free_list ++ f ∷ [];
            },
            true,
          ))
      ]

  unfoldable pub fetch_page : ℕ → Pool → Outcome (Pool × Option ℕ)
  unfolding with_latch fetch_page_impl
  fetch_page page_id = with_latch (fetch_page_impl page_id)

  unfoldable pub unpin_page : ℕ → Bool → Pool → Outcome (Pool × Bool)
  unfolding with_latch unpin_page_impl
  unpin_page page_id dirty = with_latch (unpin_page_impl page_id dirty)

  unfoldable pub flush_page : ℕ → Pool → Outcome (Pool × Bool)
  unfolding with_latch flush_page_impl
  flush_page page_id = with_latch (flush_page_impl page_id)

  unfoldable pub new_page : Pool → Outcome (Pool × (ℕ × Option ℕ))
  unfolding with_latch new_page_impl
  new_page = with_latch new_page_impl

  unfoldable pub delete_page : ℕ → Pool → Outcome (Pool × Bool)
  unfolding with_latch delete_page_impl
  delete_page page_id = with_latch (delete_page_impl page_id)

  -- The loop of FlushAllPagesImpl, which calls the method that takes the latch.
  unfoldable pub flush_each : List (ℕ × ℕ) → Pool → Outcome (Pool × Unit {0})
  unfolding flush_page
  flush_each [] p = ok (p, tt)
  flush_each ((page_id, _) ∷ rest) p = do (q, _) ← flush_page page_id p; flush_each rest q

  unfoldable pub flush_all_pages : Pool → Outcome (Pool × Unit {0})
  unfolding with_latch flush_each
  flush_all_pages = with_latch (λ p. flush_each p.page_table p)
