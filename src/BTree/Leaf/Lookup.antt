-- ===== src/BTree/Leaf/Lookup.antt =====
-- `Lookup` and `RemoveAndDeleteRecord` of a leaf page against the list of its entries.
use Prim.Native.Nat.{Ordering, lt, eq, gt}
use lab.Common.{
  ℕ, suc, ◌+◌, ◌-◌, ◌<◌, ◌≡◌, ◌≢◌, inl, inr, refl, ap, sym, ◌∙◌, true, ◌∷◌, ◌++◌, arith, none, some,
  Bool-cases, ok, undefined,
}
use lab.BTree.Order.{Comparator, zero?}
use lab.BTree.Entries.{entries, entries_split, entries_ext, shift_left, shift_left_lem}
use lab.BTree.Search.{IsPosition}
use lab.BTree.Sorted.{
  Smaller, Larger, find_entry, find_entry-Smaller, find_entry-Larger, remove_entry,
  remove_entry-Smaller, remove_entry-Larger,
}
use lab.BTree.Leaf.{LeafPage, search, lookup, remove_and_delete_record}
use lab.BTree.Leaf.Contents.{contents, IsSorted, search-IsPosition, contents_split, Larger-above}

pub is_zero : (o : Ordering) → zero? o ≡ true → o ≡ eq
is_zero lt h = cc
is_zero eq h = refl
is_zero gt h = cc

module _ {K V : Type 0} (c : Comparator K) (p : LeafPage K V) (key : K) (up : IsSorted c p)
    (n : 0 < p.size) where
  abbrev size_from : ℕ → ℕ
  size_from r = p.size - 1 - r

  module _ (r : ℕ) (k : IsPosition c p.array key 0 (p.size - 1) r) where
    -- The entries around the position.
    around : contents p ≡ entries p.array 0 r ++ p.array r ∷ entries p.array (r + 1) (size_from r)
    unfolding entries
    around =
        contents_split p r (omega (arith, k.to_last))
        ∙ ap (λ m. entries p.array 0 r ++ entries p.array r m) rest
      where
        rest : p.size - r ≡ suc (size_from r)
        rest = omega (arith, k.to_last)

    small : Smaller c p.array key 0 r
    small j a b = k.smaller j a (omega (arith, b))

    large : Larger c p.array key (r + 1) (size_from r)
    large = elim k.reached [
      | inl last ↦ λ j a b. absurd (omega arith)
      | inr d ↦ Larger-above c p key up n r (omega (arith, k.to_last)) d
    ]

    found_here :
        c.comparator (p.array r).0 key ≡ eq → find_entry c key (contents p) ≡ some (p.array r).1
    unfolding find_entry
    found_here e =
        ap (find_entry c key) around ∙ find_entry-Smaller c p.array key 0 r _ small ∙ ground arith

    found_none : c.comparator (p.array r).0 key ≢ eq → find_entry c key (contents p) ≡ none
    unfolding find_entry
    found_none d =
        ap (find_entry c key) around
        ∙ find_entry-Smaller c p.array key 0 r _ small
        ∙ ground (arith, after)
      where
        after : find_entry c key (entries p.array (r + 1) (size_from r)) ≡ none
        after = find_entry-Larger c p.array key (r + 1) (size_from r) large

  -- `Lookup` on a sorted page that is not empty finds what a walk along the entries finds.
  pub lookup-find_entry : lookup c p key ≡ ok (find_entry c key (contents p))
  unfolding lookup
  lookup-find_entry =
      let (r, e, k) = search-IsPosition c p key up n in
      ground (arith, e, found_here r k, found_none r k)

  abbrev Removed : Type 0
  Removed =
      (q : LeafPage K V) × (remove_and_delete_record c p key ≡ ok (q, q.size))
      × (contents q ≡ remove_entry c key (contents p))

  module _ (r : ℕ) (k : IsPosition c p.array key 0 (p.size - 1) r)
      (e : search c p key ≡ some r) where
    -- The page with the entry at `r` taken out.
    abbrev closed : LeafPage K V
    closed = record p { array = shift_left p.array r (p.size - 1 - r); size = p.size - 1 }

    contents-closed : contents closed ≡ entries p.array 0 r ++ entries p.array (r + 1) (size_from r)
    unfolding contents
    contents-closed =
        let before : entries closed.array 0 r ≡ entries p.array 0 r =
          entries_ext closed.array p.array 0 0 r
            (λ j l. ground (arith, shift_left_lem p.array r (p.size - 1 - r) j)) in
        let after : entries closed.array r (size_from r) ≡ entries p.array (r + 1) (size_from r) =
          entries_ext closed.array p.array r (r + 1) (size_from r)
            (λ j l. ground (arith, shift_left_lem p.array r (p.size - 1 - r) (r + j))) in
        entries_split closed.array 0 r r (size_from r) (p.size - 1) (omega (arith, k.to_last))
          (omega arith)
        ∙ (λ i. before i ++ after i)

    removed_here : c.comparator (p.array r).0 key ≡ eq → Removed
    unfolding remove_and_delete_record remove_entry
    removed_here h = (
      closed,
      ground (arith, e),
      contents-closed
          ∙ sym (
              ap (remove_entry c key) (around r k)
              ∙ remove_entry-Smaller c p.array key 0 r _ (small r k)
              ∙ ground arith),
    )

    nothing_removed : c.comparator (p.array r).0 key ≢ eq → Removed
    unfolding remove_and_delete_record remove_entry
    nothing_removed d = (
      p,
      ground (arith, e),
      sym (
          ap (remove_entry c key) (around r k)
          ∙ remove_entry-Smaller c p.array key 0 r _ (small r k)
          ∙ ground (arith, remove_entry-Larger c p.array key (r + 1) (size_from r) (large r k))
          ∙ sym (around r k)),
    )

  -- `RemoveAndDeleteRecord` on a sorted page that is not empty takes out the entry of the key, if
  -- there is one, and returns the size.
  pub remove_and_delete_record-remove_entry : Removed
  remove_and_delete_record-remove_entry =
      let (r, e, k) = search-IsPosition c p key up n in
      elim (Bool-cases (zero? (c.comparator (p.array r).0 key))) [
        | inl same ↦ removed_here r k e (is_zero _ same)
        | inr differ ↦ nothing_removed r k e (λ h. ground arith)
      ]

-- On an empty page the search begins at index -1: `Lookup` and `RemoveAndDeleteRecord` read the
-- bytes before the array.
pub lookup_empty :
    {K V : Type 0} (c : Comparator K) (p : LeafPage K V) (key : K)
    → p.size ≡ 0
    → (lookup c p key ≡ undefined) × (remove_and_delete_record c p key ≡ undefined)
unfolding lookup remove_and_delete_record
lookup_empty c p key e = ground arith
