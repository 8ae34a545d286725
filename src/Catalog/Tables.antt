-- ===== src/Catalog/Tables.antt =====
-- CreateTable of a catalog, and what GetTable then finds.
use lab.Common.{
  ℕ, ◌+◌, ◌%◌, ◌^◌, ◌<◌, ◌≡◌, refl, ◌∙◌, none, some, ok, ◌==◌, if◌then◌else◌, is_some, lookup,
  insert, lookup-insert, arith, Bool-cases, Option-cases, inl, inr, ==_iff,
}
use lab.Catalog.{TableMetadata, Catalog, create_table, get_table, get_table_by_oid, names_of}
use lab.Catalog.Invariant.{IsCatalog, lookup-insert_new, lookup-insert_same}

module _ {S H I : Type 0} where
  abbrev pub new_table : Catalog S H I → ℕ → S → H → TableMetadata S H
  new_table c name schema heap = record {
    schema = schema;
    name = name;
    table = heap;
    oid = c.next_index_oid;
  }

  abbrev pub with_table : Catalog S H I → ℕ → S → H → Catalog S H I
  with_table c name schema heap = record c {
    tables = insert c.next_index_oid (new_table c name schema heap) c.tables;
    names = insert name c.next_index_oid c.names;
    next_index_oid = c.next_index_oid + 1;
  }

  with_table-IsCatalog :
      (c : Catalog S H I) (name : ℕ) (schema : S) (heap : H)
      → IsCatalog c
      → IsCatalog (with_table c name schema heap)
  unfolding names_of
  with_table-IsCatalog c name schema heap w = record {
    unused = λ oid h. w.unused oid (omega arith);
    named = λ other oid e. elim (Bool-cases (name == other)) [
      | inl same ↦
          let at : c.next_index_oid ≡ oid =
            ground (arith, lookup-insert name other c.next_index_oid c.names, e, same) in
          (
            new_table c name schema heap,
            ground (
              arith,
              lookup-insert c.next_index_oid oid (new_table c name schema heap) c.tables,
              at,
            ),
            (==_iff name other).0 same,
            at,
            omega arith,
          )
      | inr apart ↦
          let old : lookup other c.names ≡ some oid =
            ground (arith, lookup-insert name other c.next_index_oid c.names, e, apart) in
          let (t, found, n, o, below) = w.named other oid old in
          (
            t,
            lookup-insert_new c.next_index_oid oid (new_table c name schema heap) c.tables below
                ∙ found,
            n,
            o,
            omega arith,
          )
    ];
    indexed = λ table_name index_name oid e.
        let (i, found, n, t, below) = w.indexed table_name index_name oid e in
        (i, found, n, t, omega arith);
  }

  found_table :
      (c : Catalog S H I) (name : ℕ) (schema : S) (heap : H) (other : ℕ)
      → IsCatalog c
      → get_table (with_table c name schema heap) other
        ≡ (if name == other then ok (new_table c name schema heap) else get_table c other)
  unfolding get_table get_table_by_oid
  found_table c name schema heap other w =
      let made = new_table c name schema heap in
      elim (Bool-cases (name == other)) [
        | inl same ↦
            let at : lookup other (insert name c.next_index_oid c.names) ≡ some c.next_index_oid =
              ground (arith, lookup-insert name other c.next_index_oid c.names, same) in
            rw (get_table, same, at, lookup-insert_same c.next_index_oid made c.tables) refl
        | inr apart ↦
            let at : lookup other (insert name c.next_index_oid c.names) ≡ lookup other c.names =
              ground (arith, lookup-insert name other c.next_index_oid c.names, apart) in
            elim (Option-cases (lookup other c.names)) [
              | inl e ↦ rw (get_table, apart, at, e) refl
              | inr (oid, e) ↦
                  let (t, found, n, o, below) = w.named other oid e in
                  rw
                    (
                      get_table,
                      apart,
                      at,
                      e,
                      lookup-insert_new c.next_index_oid oid made c.tables below,
                    )
                    refl
            ]
      ]

  -- CreateTable of a name that the catalog does not have, with a next oid below 2^16, keeps the
  -- invariant, that every name leads to the table or index of that name and to an oid below the next
  -- one, and that no index has a later oid; GetTable then finds the new table by its name, and by
  -- every other name what it found before.
  pub create_table-IsCatalog :
      (c : Catalog S H I) (name : ℕ) (schema : S) (heap : H)
      → IsCatalog c
      → c.next_index_oid < 2 ^ 16
      → lookup name c.names ≡ none
      → (c' : Catalog S H I) × (create_table c name schema heap
          ≡ ok (c', new_table c name schema heap))
        × IsCatalog c'
        × ((other : ℕ)
            → get_table c' other
              ≡ (if name == other then ok (new_table c name schema heap) else get_table c other))
  unfolding create_table is_some
  create_table-IsCatalog c name schema heap w small free =
      let oid : c.next_index_oid % 2 ^ 16 ≡ c.next_index_oid = omega arith in
      let next : (c.next_index_oid + 1) % 2 ^ 32 ≡ c.next_index_oid + 1 = omega arith in
      (
        with_table c name schema heap,
        rw (free, oid, next) refl,
        with_table-IsCatalog c name schema heap w,
        λ other. found_table c name schema heap other w,
      )

  -- The table that CreateTable makes, with the low 16 bits of the counter.
  abbrev pub cut_table : Catalog S H I → ℕ → S → H → TableMetadata S H
  cut_table c name schema heap = record {
    schema = schema;
    name = name;
    table = heap;
    oid = c.next_index_oid % 2 ^ 16;
  }

  -- CreateTable of a name that the catalog does not have, when another name leads to the low 16 bits
  -- of the next oid, succeeds with that oid, and GetTable then answers the new table by its name and
  -- also by the other one.
  pub create_table-replaces :
      (c : Catalog S H I) (name : ℕ) (schema : S) (heap : H) (other : ℕ)
      → lookup name c.names ≡ none
      → lookup other c.names ≡ some (c.next_index_oid % 2 ^ 16)
      → (c' : Catalog S H I) × (create_table c name schema heap
          ≡ ok (c', cut_table c name schema heap))
        × (get_table c' name ≡ ok (cut_table c name schema heap))
        × (get_table c' other ≡ ok (cut_table c name schema heap))
  unfolding create_table is_some get_table get_table_by_oid
  create_table-replaces c name schema heap other free older =
      let oid = c.next_index_oid % 2 ^ 16 in
      let made = cut_table c name schema heap in
      let kept : lookup other (insert name oid c.names) ≡ some oid =
        ground (arith, lookup-insert name other oid c.names, older) in
      let found = lookup-insert_same oid made c.tables in
      (
        record c {
          tables = insert oid made c.tables;
          names = insert name oid c.names;
          next_index_oid = (c.next_index_oid + 1) % 2 ^ 32;
        },
        rw free refl,
        rw (get_table, get_table_by_oid, lookup-insert_same name oid c.names, found) refl,
        rw (get_table, get_table_by_oid, kept, found) refl,
      )
