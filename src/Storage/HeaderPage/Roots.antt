-- ===== src/Storage/HeaderPage/Roots.antt =====
-- The header page as a partial map from names to root pages.
use lab.Common.{
  ℕ, zero, suc, ◌+◌, ◌≤◌, ◌<◌, ◌≡◌, ◌≢◌, ◌⊎◌, inl, inr, refl, sym, ◌∙◌, true, Option, none, some,
  [], ◌∷◌, ◌==◌, ltb, arith, Bool-cases,
}
use lab.Storage.HeaderPage.{Name, same, HeaderPage, capacity, find_from, find_record}

pub same_refl : (a : Name) → same a a ≡ true
unfolding same
same_refl [] = refl
same_refl (x ∷ xs) = ground (arith, same_refl xs)

pub same_eq : (a b : Name) → same a b ≡ true → a ≡ b
unfolding same
same_eq [] [] h = refl
same_eq [] (y ∷ ys) h = ground arith
same_eq (x ∷ xs) [] h = ground arith
same_eq (x ∷ xs) (y ∷ ys) h = ground (arith, same_eq xs ys)

-- The name is at the index `i` first.
pub record IsAt (records : ℕ → Name × ℕ) (name : Name) (from i : ℕ) : Type 0 where
  pub from_le : from ≤ i
  pub here : (records i).0 ≡ name
  pub not_before : (j : ℕ) → from ≤ j → j < i → (records j).0 ≢ name

find_from-IsAt :
    (records : ℕ → Name × ℕ) (name : Name) (i n : ℕ)
    → ((j : ℕ) × (find_from records name i n ≡ some j) × (j < i + n) × IsAt records name i j)
      ⊎ ((find_from records name i n ≡ none) × ((j : ℕ) → i ≤ j → j < i + n → (records j).0 ≢ name))
unfolding find_from
find_from-IsAt records name i zero = inr (refl, λ j a b. absurd (omega arith))
find_from-IsAt records name i (suc n) = elim (Bool-cases (same (records i).0 name)) [
  | inl hit ↦ inl (
    i,
    ground arith,
    omega arith,
    record {
      from_le = omega arith;
      here = same_eq _ _ hit;
      not_before = λ j a b. absurd (omega arith);
    },
  )
  | inr miss ↦
      let differs : (records i).0 ≢ name = λ e. ground (arith, same_refl name) in
      elim (find_from-IsAt records name (i + 1) n) [
        | inl (j, e, b, k) ↦ inl (
          j,
          ground (arith, e),
          omega arith,
          record {
            from_le = omega (arith, k.from_le);
            here = k.here;
            not_before = λ m a c. elim (Bool-cases (m == i)) [
              | inl first ↦ ground (arith, differs)
              | inr later ↦ k.not_before m (ground arith) c
            ];
          },
        )
        | inr (e, absent) ↦ inr (
          ground (arith, e),
          λ m a c. elim (Bool-cases (m == i)) [
            | inl first ↦ ground (arith, differs)
            | inr later ↦ absent m (ground arith) (omega arith)
          ],
        )
      ]
]

-- The root page of a name.
unfoldable pub root_of : HeaderPage → Name → Option ℕ
root_of p name = elim (find_record p name) [ none ↦ none | some i ↦ some (p.records i).1 ]

-- The names are unique, and the records fit in the page.
pub record IsValid (p : HeaderPage) : Type 0 where
  pub fits : p.record_count ≤ capacity
  pub unique : (i j : ℕ) → i < j → j < p.record_count → (p.records i).0 ≢ (p.records j).0

module _ (p : HeaderPage) (name : Name) where
  -- A name has a record, or it has none.
  pub record HasRecord (i : ℕ) : Type 0 where
    pub found : find_record p name ≡ some i
    pub in_page : i < p.record_count
    pub named : (p.records i).0 ≡ name

  abbrev pub Absent : Type 0
  Absent = (j : ℕ) → j < p.record_count → (p.records j).0 ≢ name

  pub record_cases : ((i : ℕ) × HasRecord i) ⊎ ((find_record p name ≡ none) × Absent)
  unfolding find_record
  record_cases = elim (find_from-IsAt p.records name 0 p.record_count) [
    | inl (i, e, b, k) ↦ inl (i, record { found = e; in_page = omega (arith, b); named = k.here })
    | inr (e, absent) ↦ inr (e, λ j b. absent j (omega arith) (omega arith))
  ]

  pub root_of_absent : Absent → root_of p name ≡ none
  unfolding root_of
  root_of_absent a = elim record_cases [
    | inl (i, k) ↦ absurd (a i k.in_page k.named)
    | inr (e, b) ↦ rw (e, root_of) refl
  ]

  pub root_of_here :
      IsValid p
      → (i : ℕ) → i < p.record_count
      → (p.records i).0 ≡ name
      → root_of p name ≡ some (p.records i).1
  unfolding root_of
  root_of_here v i b e = elim record_cases [
    | inl (j, k) ↦ elim (Bool-cases (i == j)) [
      | inl same_index ↦ ground (arith, k.found)
      | inr apart ↦ elim (Bool-cases (ltb i j)) [
        | inl less ↦ absurd (v.unique i j (ground arith) k.in_page (e ∙ sym k.named))
        | inr more ↦ absurd (v.unique j i (ground arith) b (k.named ∙ sym e))
      ]
    ]
    | inr (f, a) ↦ absurd (a i b e)
  ]
