-- ===== src/BTree/Leaf/Ordered.antt =====
-- `Insert` and `RemoveAndDeleteRecord` of a leaf page keep the keys sorted and unique.
use Prim.Native.Nat.{Ordering, lt, eq, gt}
use lab.Common.{
  ℕ, ◌+◌, ◌-◌, ◌≤◌, ◌<◌, ◌≡◌, ◌≢◌, inl, inr, refl, ap, subst, true, arith, none, some, Bool-cases,
  ◌==◌, ok, ok-injective,
}
use lab.BTree.Order.{Comparator}
use lab.BTree.Entries.{shift_left_lem}
use lab.BTree.Search.{IsPosition}
use lab.BTree.Leaf.{LeafPage, search, insert, insert_at, remove_and_delete_record}
use lab.BTree.Leaf.Contents.{IsSorted, search-IsPosition, Larger-above}
use lab.BTree.Leaf.Insert.{in_page, insert_at_array, index_of}

module _ {K V : Type 0} (c : Comparator K) (p : LeafPage K V) (key : K) (up : IsSorted c p) where
  -- No entry of the page has the key.
  abbrev pub Absent : Type 0
  Absent = (i : ℕ) → i < p.size → c.comparator (p.array i).0 key ≢ eq

  module _ (value : V) (absent : Absent) (n : 0 < p.size) (r : ℕ)
      (k : IsPosition c p.array key 0 (p.size - 1) r) where
    abbrev s : ℕ
    s = index_of c p key value up r

    -- The keys before the new entry are smaller, those behind it are larger.
    before : (i : ℕ) → i < s → c.comparator (p.array i).0 key ≡ lt
    before i h = ground (arith, k.smaller i)

    behind : (i : ℕ) → s ≤ i → i < p.size → c.comparator key (p.array i).0 ≡ lt
    behind i h b = c.comparator_flip_gt (p.array i).0 key (elim (Bool-cases (i == r)) [
      | inl same ↦ ground (arith, absent i b, not_smaller (c.comparator (p.array r).0 key))
      | inr apart ↦ later (ground arith)
    ])
      where
        later : r < i → c.comparator (p.array i).0 key ≡ gt
        later l = elim k.reached [
          | inl last ↦ absurd (omega arith)
          | inr d ↦ Larger-above c p key up n r (omega arith) d i (omega arith) (omega arith)
        ]

        not_smaller : (o : Ordering) → (o ≢ lt) → (o ≢ eq) → o ≡ gt
        not_smaller lt x y = absurd (x refl)
        not_smaller eq x y = absurd (y refl)
        not_smaller gt x y = refl

    pub inserted-IsSorted : IsSorted c (insert_at p s key value)
    unfolding insert_at
    inserted-IsSorted i j a l b = ground (
      arith,
      insert_at_array p s key value (in_page c p key value up n r k) i,
      insert_at_array p s key value (in_page c p key value up n r k) j,
      before i,
      behind (j - 1),
      up i j,
      up i (j - 1),
      up (i - 1) (j - 1),
    )

    pub insert_some_lem :
        search c p key ≡ some r → insert c p key value ≡ ok (insert_at p s key value, p.size + 1)
    unfolding insert
    insert_some_lem f = ground (arith, f)

  -- `Insert` of a key that the page does not have keeps the page sorted and its keys unique.
  pub insert-IsSorted :
      (value : V) (q : LeafPage K V) (size : ℕ)
      → Absent
      → insert c p key value ≡ ok (q, size)
      → IsSorted c q
  unfolding insert
  insert-IsSorted value q size absent e = elim (Bool-cases (p.size == 0)) [
    | inl empty ↦ λ i j a l b. absurd (ground (arith, first_size empty))
    | inr more ↦
        let n : 0 < p.size = ground arith in
        let (r, f, k) = search-IsPosition c p key up n in
        let done : insert c p key value
            ≡ ok (insert_at p (s value absent n r k) key value, p.size + 1) =
          insert_some_lem value absent n r k f in
        subst (IsSorted c) (ap (λ (x : LeafPage K V × ℕ). x.0) (ok-injective _ _ done e))
          (inserted-IsSorted value absent n r k)
  ]
    where
      first_size : (p.size == 0) ≡ true → q.size ≡ 1
      first_size h = ground (arith, e)

  -- `RemoveAndDeleteRecord` keeps the page sorted.
  pub remove_and_delete_record-IsSorted :
      (q : LeafPage K V) (size : ℕ) → remove_and_delete_record c p key ≡ ok (q, size) → IsSorted c q
  unfolding remove_and_delete_record
  remove_and_delete_record-IsSorted q size e = elim (Bool-cases (p.size == 0)) [
    | inl empty ↦ absurd (ground (arith, no_search empty))
    | inr more ↦
        let n : 0 < p.size = ground arith in
        let (r, f, k) = search-IsPosition c p key up n in
        λ i j a l b. ground (
          arith,
          e,
          f,
          k.to_last,
          shift_left_lem p.array r (p.size - 1 - r) i,
          shift_left_lem p.array r (p.size - 1 - r) j,
          up i j,
          up i (j + 1),
          up (i + 1) (j + 1),
        )
  ]
    where
      no_search : (p.size == 0) ≡ true → search c p key ≡ none
      no_search h = ground (arith)
