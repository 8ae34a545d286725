-- ===== src/Storage/HeaderPage/Operations.antt =====
-- The operations of the header page on the map from names to root pages.
use lab.Common.{
  ℕ, ◌+◌, ◌-◌, ◌<◌, ◌≡◌, ◌≢◌, ◌⊎◌, inl, inr, ◌∙◌, true, false, ◌&&◌, Option, none, some, ok, ltb,
  leb, if◌then◌else◌, update, length, arith, Option-cases, Bool-cases,
}
use lab.BTree.Entries.{shift_left, shift_left_lem}
use lab.Storage.HeaderPage.{
  Name, same, HeaderPage, capacity, find_record, insert_record, delete_record, update_record,
  get_root_id,
}
use lab.Storage.HeaderPage.Roots.{
  same_refl, same_eq, root_of, IsValid, HasRecord, Absent, record_cases, root_of_absent,
  root_of_here,
}

-- What a page is after an operation: valid, with these root pages.
pub record Holds (q : HeaderPage) (roots : Name → Option ℕ) : Type 0 where
  pub valid : IsValid q
  pub roots_are : (name : Name) → root_of q name ≡ roots name

module _ (p : HeaderPage) (v : IsValid p) (name : Name) (short : length name < 32) where
  -- `GetRootId` of a valid page and a name of less than 32 characters returns the root page of the
  -- name, if it has a record.
  pub get_root_id-root_of : get_root_id p name ≡ ok (root_of p name)
  unfolding get_root_id root_of
  get_root_id-root_of = ground (arith, Option-cases (find_record p name))

  abbrev appended : ℕ → HeaderPage
  appended root = record p {
    record_count = p.record_count + 1;
    records = update p.records p.record_count (name, root);
  }

  appended-IsValid :
      (root : ℕ) → Absent p name → p.record_count < capacity → IsValid (appended root)
  appended-IsValid root a room = record {
    fits = omega arith;
    unique = λ i j l b. ground (arith, v.unique i j, a i);
  }

  appended_roots :
      (root : ℕ)
      → Absent p name
      → p.record_count < capacity
      → (n : Name) → root_of (appended root) n ≡ (if same name n then some root else root_of p n)
  appended_roots root a room n = elim (Bool-cases (same name n)) [
    | inl hit ↦
        let e = same_eq name n hit in
        rw hit (
          root_of_here (appended root) n (appended-IsValid root a room) p.record_count (omega arith)
            (ground (arith, e))
          ∙ ground arith)
    | inr miss ↦ elim (record_cases p n) [
      | inl (i, k) ↦ ground (
        arith,
        k.in_page,
        root_of_here p n v i k.in_page k.named,
        root_of_here (appended root) n (appended-IsValid root a room) i (omega (arith, k.in_page))
            (ground (arith, k.in_page, k.named)),
      )
      | inr (e, b) ↦
          let d : name ≢ n = λ h. ground (arith, same_refl name) in
          ground (
            arith,
            root_of_absent p n b,
            root_of_absent (appended root) n (λ j l. ground (arith, b j, d)),
          )
    ]
  ]

  -- `InsertRecord` on a valid page, of a name of less than 32 characters that has no record, enters it
  -- with its root page, if there is room; the page is valid, and all other names keep their root
  -- pages. If the name has a record it answers false, and nothing changes.
  pub insert_record-Holds :
      (root : ℕ)
      → p.record_count < capacity
      → (((i : ℕ) × HasRecord p name i) × (insert_record p name (some root) ≡ ok (p, false)))
        ⊎ ((q : HeaderPage) × (root_of p name ≡ none)
            × (insert_record p name (some root) ≡ ok (q, true))
            × Holds q (λ n. if same name n then some root else root_of p n))
  unfolding insert_record
  insert_record-Holds root room = elim (record_cases p name) [
    | inl (i, k) ↦ inl ((i, k), ground (arith, k.found))
    | inr (e, a) ↦ inr (
      appended root,
      root_of_absent p name a,
      ground (arith, e),
      record { valid = appended-IsValid root a room; roots_are = appended_roots root a room },
    )
  ]

  module _ (i : ℕ) (k : HasRecord p name i) where
    abbrev updated : ℕ → HeaderPage
    updated root = record p { records = update p.records i ((p.records i).0, root) }

    updated-IsValid : (root : ℕ) → IsValid (updated root)
    updated-IsValid root = record {
      fits = v.fits;
      unique = λ a b l c. ground (arith, v.unique a b);
    }

    updated_roots :
        (root : ℕ) (n : Name)
        → root_of (updated root) n ≡ (if same name n then some root else root_of p n)
    updated_roots root n = elim (Bool-cases (same name n)) [
      | inl hit ↦
          let e = same_eq name n hit in
          ground (
            arith,
            hit,
            root_of_here (updated root) n (updated-IsValid root) i k.in_page
                (ground (arith, e, k.named)),
          )
      | inr miss ↦
          let d : name ≢ n = λ h. ground (arith, same_refl name) in
          elim (record_cases p n) [
            | inl (j, m) ↦ ground (
              arith,
              d,
              k.named,
              m.named,
              root_of_here p n v j m.in_page m.named,
              root_of_here (updated root) n (updated-IsValid root) j m.in_page
                  (ground (arith, m.named)),
            )
            | inr (e, b) ↦ ground (
              arith,
              root_of_absent p n b,
              root_of_absent (updated root) n (λ j l. ground (arith, b j)),
            )
          ]
    ]

    abbrev deleted : HeaderPage
    deleted = record p {
      record_count = p.record_count - 1;
      records = shift_left p.records i (p.record_count - i - 1);
    }

    deleted_records :
        (j : ℕ)
        → deleted.records j ≡ (
            if leb i j && ltb j (i + (p.record_count - i - 1))
            then p.records (j + 1)
            else p.records j)
    deleted_records j = shift_left_lem p.records i (p.record_count - i - 1) j

    deleted-IsValid : IsValid deleted
    deleted-IsValid = record {
      fits = omega (arith, v.fits);
      unique = λ a b l c. ground (
        arith,
        k.in_page,
        deleted_records a,
        deleted_records b,
        v.unique a b,
        v.unique a (b + 1),
        v.unique (a + 1) (b + 1),
      );
    }

    gone : (n : Name) → name ≡ n → root_of deleted n ≡ none
    gone n e = root_of_absent deleted n (λ j l.
        ground (arith, e, k.named, k.in_page, deleted_records j, v.unique j i, v.unique i (j + 1)))

    kept : (n : Name) → name ≢ n → root_of deleted n ≡ root_of p n
    kept n d = elim (record_cases p n) [
      | inl (j, m) ↦
          let at : ℕ = if ltb j i then j else j - 1 in
          let apart : j ≢ i = λ h. ground (arith, d, k.named, m.named) in
          let row : deleted.records at ≡ p.records j =
            ground
              (arith, apart, k.in_page, m.in_page, deleted_records j, deleted_records (j - 1)) in
          root_of_here deleted n deleted-IsValid at (ground (arith, apart, k.in_page, m.in_page))
            (ground (arith, row, m.named))
          ∙ ground (arith, row, root_of_here p n v j m.in_page m.named)
      | inr (e, b) ↦ ground (
        arith,
        root_of_absent p n b,
        root_of_absent deleted n
            (λ j l. ground (arith, k.in_page, deleted_records j, b j, b (j + 1))),
      )
    ]

    deleted_roots : (n : Name) → root_of deleted n ≡ (if same name n then none else root_of p n)
    deleted_roots n = elim (Bool-cases (same name n)) [
      | inl hit ↦ ground (arith, hit, gone n (same_eq name n hit))
      | inr miss ↦ ground (arith, miss, kept n (λ h. ground (arith, same_refl name)))
    ]

  -- `UpdateRecord` on a valid page, of a name of less than 32 characters that has a record, changes its
  -- root page alone, and the page is valid; without a record it answers false, and nothing changes.
  pub update_record-Holds :
      (root : ℕ)
      → ((root_of p name ≡ none) × (update_record p name root ≡ ok (p, false)))
        ⊎ ((q : HeaderPage) × (update_record p name root ≡ ok (q, true))
            × Holds q (λ n. if same name n then some root else root_of p n))
  unfolding update_record
  update_record-Holds root = elim (record_cases p name) [
    | inl (i, k) ↦ inr (
      updated i k root,
      ground (arith, k.found),
      record { valid = updated-IsValid i k root; roots_are = updated_roots i k root },
    )
    | inr (e, a) ↦ inl (root_of_absent p name a, ground (arith, e))
  ]

  -- `DeleteRecord` on a valid page that is not empty takes out the record of the name alone, and the
  -- page is valid; without a record it answers false, and nothing changes.
  pub delete_record-Holds :
      0 < p.record_count
      → ((root_of p name ≡ none) × (delete_record p name ≡ ok (p, false)))
        ⊎ ((q : HeaderPage) × (delete_record p name ≡ ok (q, true))
            × Holds q (λ n. if same name n then none else root_of p n))
  unfolding delete_record
  delete_record-Holds some_record = elim (record_cases p name) [
    | inl (i, k) ↦ inr (
      deleted i k,
      ground (arith, k.found),
      record { valid = deleted-IsValid i k; roots_are = deleted_roots i k },
    )
    | inr (e, a) ↦ inl (root_of_absent p name a, ground (arith, e))
  ]
