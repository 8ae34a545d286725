-- ===== src/Catalog/Invariant.antt =====
-- The invariant of a catalog: every name leads to the table or index of that name.
use lab.Common.{
  ℕ, ◌<◌, ◌≤◌, ◌≡◌, refl, Bool, true, false, Option, none, some, List, if◌then◌else◌, lookup,
  insert, lookup-insert, arith,
}
use lab.Catalog.{TableMetadata, IndexInfo, Catalog, names_of, or_empty}

pub record IsCatalog {S H I : Type 0} (c : Catalog S H I) : Type 0 where
  pub named :
      (name oid : ℕ)
      → lookup name c.names ≡ some oid
      → (t : TableMetadata S H) × (lookup oid c.tables ≡ some t)
        × (t.name ≡ name)
        × (t.oid ≡ oid)
        × (oid < c.next_index_oid)
  pub indexed :
      (table_name name oid : ℕ)
      → lookup name (names_of c table_name) ≡ some oid
      → (i : IndexInfo S I) × (lookup oid c.indexes ≡ some i)
        × (i.name ≡ name)
        × (i.table_name ≡ table_name)
        × (oid < c.next_index_oid)
  pub unused : (oid : ℕ) → c.next_index_oid ≤ oid → lookup oid c.indexes ≡ none

-- A new oid hides no entry below it.
pub lookup-insert_new :
    {V : Type 0} (new oid : ℕ) (v : V) (entries : List (ℕ × V))
    → oid < new
    → lookup oid (insert new v entries) ≡ lookup oid entries
lookup-insert_new new oid v entries h = ground (arith, lookup-insert new oid v entries)

pub lookup-insert_same :
    {V : Type 0} (key : ℕ) (v : V) (entries : List (ℕ × V))
    → lookup key (insert key v entries) ≡ some v
lookup-insert_same key v entries = ground (arith, lookup-insert key key v entries)

pub or_empty-if :
    (b : Bool) (x : List (ℕ × ℕ)) (o : Option (List (ℕ × ℕ)))
    → or_empty (if b then some x else o) ≡ (if b then x else or_empty o)
unfolding or_empty
or_empty-if true x o = refl
or_empty-if false x o = refl
