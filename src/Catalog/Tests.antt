-- ===== src/Catalog/Tests.antt =====
-- A catalog with one table, and instances of the results.
use lab.Common.{
  ℕ, ◌≡◌, refl, some, [], ◌∷◌, ok, ◌==◌, if◌then◌else◌, arith, lookup, Bool-cases, ==_iff, inl, inr,
}
use lab.Catalog.{
  TableMetadata, IndexInfo, Catalog, create_table, get_table, get_table_by_oid, create_index,
  get_index, names_of, or_empty,
}
use lab.Catalog.Invariant.{IsCatalog}
use lab.Catalog.Tables.{create_table-IsCatalog, create_table-replaces}
use lab.Catalog.Indexes.{create_index-IsCatalog}

-- Schemas, heaps and indexes are numbers here.
abbrev empty : Catalog ℕ ℕ ℕ
empty = record { tables = []; names = []; indexes = []; index_names = []; next_index_oid = 0 }

empty-IsCatalog : IsCatalog empty
unfolding lookup names_of or_empty
empty-IsCatalog = record {
  named = λ name oid e. cc;
  indexed = λ table_name name oid e. cc;
  unused = λ oid h. refl;
}

abbrev accounts : TableMetadata ℕ ℕ
accounts = record { schema = 4; name = 8; table = 6; oid = 0 }

abbrev one : Catalog ℕ ℕ ℕ
one = record {
  tables = (0, accounts) ∷ [];
  names = (8, 0) ∷ [];
  indexes = [];
  index_names = [];
  next_index_oid = 1;
}

create_table-IsCatalog_example :
    (c : Catalog ℕ ℕ ℕ) × (create_table empty 8 4 6 ≡ ok (c, accounts))
    × IsCatalog c
    × ((other : ℕ)
        → get_table c other ≡ (if 8 == other then ok accounts else get_table empty other))
unfolding lookup
create_table-IsCatalog_example =
    create_table-IsCatalog empty 8 4 6 empty-IsCatalog (omega arith) refl

one-IsCatalog : IsCatalog one
unfolding lookup names_of or_empty
one-IsCatalog = record {
  named = λ name oid e. elim (Bool-cases (8 == name)) [
    | inl same ↦
        let at : 0 ≡ oid = ground (arith, e, same) in
        (accounts, ground (arith, at), (==_iff 8 name).0 same, at, omega arith)
    | inr apart ↦ ground (arith, e, apart)
  ];
  indexed = λ table_name name oid e. cc;
  unused = λ oid h. refl;
}

abbrev by_owner : IndexInfo ℕ ℕ
by_owner = record {
  key_schema = 3;
  name = 9;
  index = 5;
  index_oid = 1;
  table_name = 8;
  key_size = 8;
}

create_index-IsCatalog_example :
    (c : Catalog ℕ ℕ ℕ) × (create_index one 9 8 3 5 8 ≡ ok (c, by_owner))
    × IsCatalog c
    × (get_index c 9 8 ≡ some by_owner)
unfolding lookup get_table get_table_by_oid names_of or_empty
create_index-IsCatalog_example =
    create_index-IsCatalog one 9 8 3 5 8 accounts one-IsCatalog (omega arith) refl refl

-- The same catalog after 65536 oids, and a new table.
abbrev full : Catalog ℕ ℕ ℕ
full = record one { next_index_oid = 65536 }

abbrev orders : TableMetadata ℕ ℕ
orders = record { schema = 5; name = 9; table = 7; oid = 0 }

create_table-replaces_example :
    (c : Catalog ℕ ℕ ℕ) × (create_table full 9 5 7 ≡ ok (c, orders))
    × (get_table c 9 ≡ ok orders)
    × (get_table c 8 ≡ ok orders)
unfolding lookup
create_table-replaces_example = create_table-replaces full 9 5 7 8 refl refl
