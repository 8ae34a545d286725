-- ===== src/Catalog.antt =====
-- src/include/catalog/catalog.h. The names of tables and indexes are numbers, equal when the strings are.
-- The schemas, the table heap that CreateTable makes and the index that CreateIndex fills are arguments of
-- any type. A `std::out_of_range` is `exception`, and `nullptr` is `none`. Identifiers have 32 bits, and wrap;
-- CreateTable passes them through an `oid_t` of 16.
pub mod Invariant
pub mod Tables
pub mod Indexes
mod Tests
use lab.Common.{
  ℕ, ◌+◌, ◌%◌, ◌^◌, Bool, true, false, Option, none, some, List, [], ◌∷◌, Outcome, ok,
  assert_failed, exception, undefined, ◌>>=◌, if◌then◌else◌, is_some, lookup, insert,
}

pub record TableMetadata (S H : Type 0) : Type 0 where
  pub schema : S
  pub name : ℕ
  pub table : H
  pub oid : ℕ

pub record IndexInfo (S I : Type 0) : Type 0 where
  pub key_schema : S
  pub name : ℕ
  pub index : I
  pub index_oid : ℕ
  pub table_name : ℕ
  pub key_size : ℕ

-- `next_table_oid_` is never read.
pub record Catalog (S H I : Type 0) : Type 0 where
  pub tables : List (ℕ × TableMetadata S H)
  pub names : List (ℕ × ℕ)
  pub indexes : List (ℕ × IndexInfo S I)
  pub index_names : List (ℕ × List (ℕ × ℕ))
  pub next_index_oid : ℕ

unfoldable pub or_empty : Option (List (ℕ × ℕ)) → List (ℕ × ℕ)
or_empty none = []
or_empty (some names) = names

module _ {S H I : Type 0} where
  -- `oid_t new_oid` takes the low 16 bits of the counter. A table that has the oid already is replaced.
  unfoldable pub create_table :
      Catalog S H I → ℕ → S → H → Outcome (Catalog S H I × TableMetadata S H)
  create_table c table_name schema heap =
      if is_some (lookup table_name c.names)
      then assert_failed
      else let new_oid = c.next_index_oid % 2 ^ 16 in
        let made : TableMetadata S H = record {
          schema = schema;
          name = table_name;
          table = heap;
          oid = new_oid;
        } in
        ok (
          record c {
            tables = insert new_oid made c.tables;
            names = insert table_name new_oid c.names;
            next_index_oid = (c.next_index_oid + 1) % 2 ^ 32;
          },
          made,
        )

  unfoldable pub get_table_by_oid : Catalog S H I → ℕ → Option (TableMetadata S H)
  get_table_by_oid c oid = lookup oid c.tables

  unfoldable pub get_table : Catalog S H I → ℕ → Outcome (TableMetadata S H)
  get_table c table_name = elim (lookup table_name c.names) [
    | none ↦ exception
    | some oid ↦ elim (get_table_by_oid c oid) [ none ↦ exception | some t ↦ ok t ]
  ]

  -- The map of a table's index names, which `index_names_[table_name]` makes when it is missing.
  unfoldable pub names_of : Catalog S H I → ℕ → List (ℕ × ℕ)
  names_of c table_name = or_empty (lookup table_name c.index_names)

  -- CreateIndex with the index that its loop over the table fills. `indexes_` keeps an entry that has the
  -- oid already; the new index is then destroyed, and CreateIndex returns a pointer to it.
  unfoldable pub create_index :
      Catalog S H I → ℕ → ℕ → S → I → ℕ → Outcome (Catalog S H I × IndexInfo S I)
  create_index c index_name table_name key_schema filled key_size =
      get_table c table_name >>= λ table_meta.
      let new_oid = c.next_index_oid in
      let made : IndexInfo S I = record {
        key_schema = key_schema;
        name = index_name;
        index = filled;
        index_oid = new_oid;
        table_name = table_name;
        key_size = key_size;
      } in
      if is_some (lookup index_name (names_of c table_name))
      then assert_failed
      else (if is_some (lookup new_oid c.indexes)
          then undefined
          else ok (
            record c {
              indexes = insert new_oid made c.indexes;
              index_names =
                  insert table_name (insert index_name new_oid (names_of c table_name))
                    c.index_names;
              next_index_oid = (new_oid + 1) % 2 ^ 32;
            },
            made,
          ))

  unfoldable pub get_index_by_oid : Catalog S H I → ℕ → Option (IndexInfo S I)
  get_index_by_oid c oid = lookup oid c.indexes

  unfoldable pub get_index : Catalog S H I → ℕ → ℕ → Option (IndexInfo S I)
  get_index c index_name table_name = elim (lookup index_name (names_of c table_name)) [
    | none ↦ none
    | some oid ↦ get_index_by_oid c oid
  ]
