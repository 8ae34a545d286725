-- ===== src/Storage/Tests.antt =====
-- The header page on concrete inputs.
use lab.Common.{ℕ, ◌≡◌, ◌⊎◌, true, false, none, some, [], ◌∷◌, ok, if◌then◌else◌, arith}
use lab.Storage.HeaderPage.{Name, same, HeaderPage, insert_record}
use lab.Storage.HeaderPage.Roots.{root_of, IsValid, HasRecord}
use lab.Storage.HeaderPage.Operations.{Holds, insert_record-Holds}

-- The names "t" and "u".
abbrev table : Name
table = 116 ∷ []

abbrev other : Name
other = 117 ∷ []

abbrev one : HeaderPage
one = record { record_count = 1; records = λ i. (table, 5) }

one-IsValid : IsValid one
one-IsValid = record { fits = omega arith; unique = λ i j l b. absurd (omega arith) }

insert_record-Holds_example :
    (((i : ℕ) × HasRecord one other i) × (insert_record one other (some 6) ≡ ok (one, false)))
    ⊎ ((q : HeaderPage) × (root_of one other ≡ none)
        × (insert_record one other (some 6) ≡ ok (q, true))
        × Holds q (λ n. if same other n then some 6 else root_of one n))
insert_record-Holds_example =
    insert_record-Holds one one-IsValid other (omega arith) 6 (omega arith)
