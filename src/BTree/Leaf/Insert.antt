-- ===== src/BTree/Leaf/Insert.antt =====
-- `Insert` of a leaf page against insertion into a list.
use Prim.Native.Nat.{lt}
use lab.Common.{
  ℕ, suc, ◌+◌, ◌-◌, ◌≤◌, ◌<◌, ◌≡◌, ◌≢◌, ◌⊎◌, inl, inr, refl, ap, sym, ◌∙◌, ◌∷◌, ◌++◌, arith,
  if◌then◌else◌, Bool-cases, ◌==◌, ok, update, ltb, leb, ◌&&◌,
}
use lab.BTree.Order.{Comparator, ge}
use lab.BTree.Entries.{entries, entries_split, entries_ext, shift_right_lem}
use lab.BTree.Search.{IsPosition}
use lab.BTree.Sorted.{Smaller, insert_entry, insert_entry-Smaller, insert_entry_here}
use lab.BTree.Leaf.{LeafPage, insert, insert_at}
use lab.BTree.Leaf.Contents.{contents, IsSorted, search-IsPosition, contents_split}

module _ {K V : Type 0} (p : LeafPage K V) (s : ℕ) (key : K) (value : V) (h : s ≤ p.size) where
  pub insert_at_array :
      (j : ℕ)
      → (insert_at p s key value).array j ≡ (
          if s == j
          then (key, value)
          else (if ltb s j && leb j p.size then p.array (j - 1) else p.array j))
  unfolding insert_at
  insert_at_array j = ground (arith, shift_right_lem p.array s (p.size - s) j)

  -- The loop makes room and the entry goes there.
  pub contents-insert_at :
      contents (insert_at p s key value)
      ≡ entries p.array 0 s ++ (key, value) ∷ entries p.array s (p.size - s)
  unfolding contents insert_at entries
  contents-insert_at =
      let a = (insert_at p s key value).array in
      let before : entries a 0 s ≡ entries p.array 0 s =
        entries_ext a p.array 0 0 s (λ j l. ground (arith, insert_at_array j)) in
      let here : a s ≡ (key, value) = ground (arith, insert_at_array s) in
      let after : entries a (s + 1) (p.size - s) ≡ entries p.array s (p.size - s) =
        entries_ext a p.array (s + 1) s (p.size - s)
          (λ j l. ground (arith, insert_at_array (s + 1 + j))) in
      entries_split a 0 s s (suc (p.size - s)) (p.size + 1) (omega arith) (omega arith)
      ∙ (λ i. before i ++ here i ∷ after i)

module _ {K V : Type 0} (c : Comparator K) (p : LeafPage K V) (key : K) (value : V)
    (up : IsSorted c p) where
  abbrev Inserted : Type 0
  Inserted =
      (q : LeafPage K V) × (insert c p key value ≡ ok (q, p.size + 1))
      × (q.size ≡ p.size + 1)
      × (contents q ≡ insert_entry c key value (contents p))

  -- The index at which `Insert` makes room.
  abbrev pub index_of : ℕ → ℕ
  index_of r = if ge (c.comparator (p.array r).0 key) then r else r + 1

  module _ (some_entry : 0 < p.size) (r : ℕ) (k : IsPosition c p.array key 0 (p.size - 1) r) where
    pub in_page : index_of r ≤ p.size
    in_page = ground (arith, k.to_last)

    all-Smaller : Smaller c p.array key 0 (index_of r)
    all-Smaller j a b = ground (arith, k.smaller j)

    not_smaller_at : (p.size - index_of r ≡ 0) ⊎ (c.comparator (p.array (index_of r)).0 key ≢ lt)
    not_smaller_at = ground (arith, k.reached)

    pub insert_entry_at :
        insert_entry c key value (contents p)
        ≡ entries p.array 0 (index_of r)
          ++ (key, value) ∷ entries p.array (index_of r) (p.size - index_of r)
    insert_entry_at =
        ap (insert_entry c key value) (contents_split p (index_of r) in_page)
        ∙ insert_entry-Smaller c p.array key value 0 (index_of r) _ all-Smaller
        ∙ ap (◌++◌ (entries p.array 0 (index_of r)))
            (insert_entry_here c p.array key value (index_of r) _ not_smaller_at)

  insert_some : 0 < p.size → Inserted
  unfolding insert insert_at
  insert_some n =
      let (r, e, k) = search-IsPosition c p key up n in
      (
        insert_at p (index_of r) key value,
        ground (arith, e),
        refl,
        contents-insert_at p (index_of r) key value (in_page n r k) ∙ sym (insert_entry_at n r k),
      )

  insert_first : p.size ≡ 0 → Inserted
  unfolding insert contents entries insert_entry
  insert_first e = (
    record p { array = update p.array 0 (key, value); size = p.size + 1 },
    ground arith,
    refl,
    ground arith,
  )

  -- `Insert` on a sorted page always ends, one entry larger, and the entries are then those of an
  -- insertion into the sorted list.
  pub insert-insert_entry : Inserted
  insert-insert_entry = elim (Bool-cases (p.size == 0)) [
    | inl empty ↦ insert_first (ground arith)
    | inr more ↦ insert_some (ground arith)
  ]
