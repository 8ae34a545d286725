-- ===== src/Catalog/Indexes.antt =====
-- CreateIndex of a catalog, and what GetIndex then finds.
use lab.Common.{
  ℕ, ◌+◌, ◌%◌, ◌^◌, ◌<◌, ◌≡◌, refl, ap, subst, ◌∙◌, none, some, ok, ◌==◌, if◌then◌else◌, is_some,
  lookup, insert, lookup-insert, arith, Bool-cases, inl, inr, ==_iff, ==_refl,
}
use lab.Catalog.{
  TableMetadata, IndexInfo, Catalog, get_table, create_index, get_index, get_index_by_oid, names_of,
  or_empty,
}
use lab.Catalog.Invariant.{IsCatalog, lookup-insert_new, lookup-insert_same, or_empty-if}

module _ {S H I : Type 0} where
  abbrev pub new_index : Catalog S H I → ℕ → ℕ → S → I → ℕ → IndexInfo S I
  new_index c index_name table_name key_schema filled key_size = record {
    key_schema = key_schema;
    name = index_name;
    index = filled;
    index_oid = c.next_index_oid;
    table_name = table_name;
    key_size = key_size;
  }

  abbrev with_index : Catalog S H I → IndexInfo S I → Catalog S H I
  with_index c made = record c {
    indexes = insert c.next_index_oid made c.indexes;
    index_names =
        insert made.table_name (insert made.name c.next_index_oid (names_of c made.table_name))
          c.index_names;
    next_index_oid = c.next_index_oid + 1;
  }

  names_with_index :
      (c : Catalog S H I) (made : IndexInfo S I) (other : ℕ)
      → names_of (with_index c made) other ≡ (
          if made.table_name == other
          then insert made.name c.next_index_oid (names_of c made.table_name)
          else names_of c other)
  unfolding names_of
  names_with_index c made other =
      ap or_empty (
        lookup-insert made.table_name other
          (insert made.name c.next_index_oid (names_of c made.table_name)) c.index_names)
      ∙ or_empty-if (made.table_name == other) _ _

  Indexed : Catalog S H I → ℕ → ℕ → ℕ → Type 0
  Indexed c table_name name oid =
      (i : IndexInfo S I) × (lookup oid c.indexes ≡ some i)
      × (i.name ≡ name)
      × (i.table_name ≡ table_name)
      × (oid < c.next_index_oid)

  -- An older index is still there.
  older-Indexed :
      (c : Catalog S H I) (made : IndexInfo S I) (table_name name oid : ℕ)
      → Indexed c table_name name oid
      → Indexed (with_index c made) table_name name oid
  unfolding Indexed
  older-Indexed c made table_name name oid (i, found, n, t, below) =
      (i, lookup-insert_new c.next_index_oid oid made c.indexes below ∙ found, n, t, omega arith)

  with_index-Indexed :
      (c : Catalog S H I) (made : IndexInfo S I)
      → IsCatalog c
      → (table_name name oid : ℕ)
      → lookup name (
          if made.table_name == table_name
          then insert made.name c.next_index_oid (names_of c made.table_name)
          else names_of c table_name)
        ≡ some oid
      → Indexed (with_index c made) table_name name oid
  unfolding Indexed
  with_index-Indexed c made w table_name name oid e =
      elim (Bool-cases (made.table_name == table_name)) [
        | inr other ↦
            older-Indexed c made table_name name oid (w.indexed table_name name oid (rw other at e))
        | inl same ↦
            let table_same : made.table_name ≡ table_name =
              (==_iff made.table_name table_name).0 same in
            elim (Bool-cases (made.name == name)) [
              | inl new ↦
                  let at : c.next_index_oid ≡ oid = ground (
                    arith,
                    lookup-insert made.name name c.next_index_oid (names_of c made.table_name),
                    e,
                    same,
                    new,
                  ) in
                  (
                    made,
                    ground (arith, lookup-insert c.next_index_oid oid made c.indexes, at),
                    (==_iff made.name name).0 new,
                    table_same,
                    omega arith,
                  )
              | inr old ↦
                  let kept : lookup name (names_of c made.table_name) ≡ some oid = ground (
                    arith,
                    lookup-insert made.name name c.next_index_oid (names_of c made.table_name),
                    e,
                    same,
                    old,
                  ) in
                  older-Indexed c made table_name name oid (
                    w.indexed table_name name oid
                      (subst (λ t. lookup name (names_of c t) ≡ some oid) table_same kept))
            ]
      ]

  with_index-IsCatalog :
      (c : Catalog S H I) (made : IndexInfo S I) → IsCatalog c → IsCatalog (with_index c made)
  unfolding Indexed
  with_index-IsCatalog c made w = record {
    unused = λ oid h.
        ground
          (arith, lookup-insert c.next_index_oid oid made c.indexes, w.unused oid (omega arith));
    named = λ name oid e.
        let (t, found, n, o, below) = w.named name oid e in (t, found, n, o, omega arith);
    indexed = λ table_name name oid e.
        with_index-Indexed c made w table_name name oid
          (subst (λ m. lookup name m ≡ some oid) (names_with_index c made table_name) e);
  }

  found_index :
      (c : Catalog S H I) (made : IndexInfo S I)
      → get_index (with_index c made) made.name made.table_name ≡ some made
  unfolding get_index get_index_by_oid
  found_index c made =
      let named : names_of (with_index c made) made.table_name
          ≡ insert made.name c.next_index_oid (names_of c made.table_name) =
        names_with_index c made made.table_name
        ∙ ap
            (λ b.
              if b
              then insert made.name c.next_index_oid (names_of c made.table_name)
              else names_of c made.table_name)
            (==_refl made.table_name) in
      rw
        (
          get_index,
          named,
          lookup-insert_same made.name c.next_index_oid (names_of c made.table_name),
          lookup-insert_same c.next_index_oid made c.indexes,
        )
        refl

  -- CreateIndex, on a table that the catalog has and under a name that the table does not have for an
  -- index, with a next oid below 2^32 - 1, keeps the invariant of the catalog, and GetIndex then finds
  -- the new index by the two names.
  pub create_index-IsCatalog :
      (c : Catalog S H I) (index_name table_name : ℕ) (key_schema : S) (filled : I) (key_size : ℕ)
      (table_meta : TableMetadata S H)
      → IsCatalog c
      → c.next_index_oid + 1 < 2 ^ 32
      → get_table c table_name ≡ ok table_meta
      → lookup index_name (names_of c table_name) ≡ none
      → (c' : Catalog S H I) × (create_index c index_name table_name key_schema filled key_size
          ≡ ok (c', new_index c index_name table_name key_schema filled key_size))
        × IsCatalog c'
        × (get_index c' index_name table_name
            ≡ some (new_index c index_name table_name key_schema filled key_size))
  unfolding create_index is_some
  create_index-IsCatalog c index_name table_name key_schema filled key_size table_meta w small found
        free =
      let made = new_index c index_name table_name key_schema filled key_size in
      let next : (c.next_index_oid + 1) % 2 ^ 32 ≡ c.next_index_oid + 1 = omega arith in
      (
        with_index c made,
        rw (create_index, found, free, w.unused c.next_index_oid (omega arith), next) refl,
        with_index-IsCatalog c made w,
        found_index c made,
      )
