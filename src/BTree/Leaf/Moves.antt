-- ===== src/BTree/Leaf/Moves.antt =====
-- Split, merge and redistribution between two leaf pages.
use lab.Common.{ℕ, ◌+◌, ◌-◌, ◌/◌, ◌≤◌, ◌<◌, ◌≡◌, refl, ap, ◌∙◌, [], ◌∷◌, ◌++◌, arith, some, update}
use lab.BTree.Entries.{
  entries, entries_split, entries_ext, shift_left, shift_left_lem, shift_right, shift_right_lem,
  copy_n, copy_n_lem,
}
use lab.BTree.Leaf.{
  LeafPage, copy_n_from, move_half_to, move_all_to, move_first_to_end_of, move_last_to_front_of,
}
use lab.BTree.Leaf.Contents.{contents, contents_split}

module _ {K V : Type 0} where
  contents-copy_n_from :
      (p : LeafPage K V) (items : ℕ → K × V) (n : ℕ)
      → contents (copy_n_from p items n) ≡ contents p ++ entries items 0 n
  unfolding contents copy_n_from
  contents-copy_n_from p items n =
      let a = copy_n p.array p.size items 0 n in
      let old : entries a 0 p.size ≡ entries p.array 0 p.size =
        entries_ext a p.array 0 0 p.size
          (λ j l. ground (arith, copy_n_lem p.array p.size items 0 n j)) in
      let new : entries a p.size n ≡ entries items 0 n =
        entries_ext a items p.size 0 n
          (λ j l. ground (arith, copy_n_lem p.array p.size items 0 n (p.size + j))) in
      entries_split a 0 p.size p.size n (p.size + n) refl (omega arith) ∙ (λ i. old i ++ new i)

  module _ (p recipient : LeafPage K V) where
    -- `MoveHalfTo` moves the upper half of the entries behind those of the recipient, in order, and
    -- links the recipient in behind the page.
    pub move_half_to-contents :
        (contents p
          ≡ contents (move_half_to p recipient).0
            ++ entries p.array ((p.size + 1) / 2) (p.size - (p.size + 1) / 2))
        × (contents (move_half_to p recipient).1
            ≡ contents recipient ++ entries p.array ((p.size + 1) / 2) (p.size - (p.size + 1) / 2))
        × ((move_half_to p recipient).0.size ≡ (p.size + 1) / 2)
        × ((move_half_to p recipient).0.next_page_id ≡ some recipient.page_id)
        × ((move_half_to p recipient).1.next_page_id ≡ p.next_page_id)
    unfolding move_half_to contents
    move_half_to-contents =
        let half = (p.size + 1) / 2 in
        let half_le : half ≤ p.size = omega arith in
        let shifted : entries (λ i. p.array (half + i)) 0 (p.size - half)
            ≡ entries p.array half (p.size - half) =
          entries_ext (λ i. p.array (half + i)) p.array 0 half (p.size - half)
            (λ j l. ground arith) in
        (
          contents_split p half half_le,
          contents-copy_n_from recipient (λ i. p.array (half + i)) (p.size - half)
              ∙ ap (◌++◌ (contents recipient)) shifted,
          refl,
          refl,
          refl,
        )

    -- `MoveAllTo` moves every entry behind those of the recipient, which takes over the next page.
    pub move_all_to-contents :
        (contents (move_all_to p recipient).1 ≡ contents recipient ++ contents p)
        × (contents (move_all_to p recipient).0 ≡ [])
        × ((move_all_to p recipient).1.next_page_id ≡ p.next_page_id)
    unfolding move_all_to contents entries
    move_all_to-contents = (contents-copy_n_from recipient p.array p.size, refl, refl)

    -- `MoveFirstToEndOf` of a page that is not empty moves the first entry behind those of the recipient.
    pub move_first_to_end_of-contents :
        0 < p.size
        → (contents p ≡ p.array 0 ∷ contents (move_first_to_end_of p recipient).0)
          × (contents (move_first_to_end_of p recipient).1 ≡ contents recipient ++ p.array 0 ∷ [])
    unfolding move_first_to_end_of contents entries
    move_first_to_end_of-contents n =
        let a = shift_left p.array 0 p.size in
        let b = update recipient.array recipient.size (p.array 0) in
        let whole = entries_split p.array 0 1 1 (p.size - 1) p.size (omega arith) (omega arith) in
        let rest : entries p.array 1 (p.size - 1) ≡ entries a 0 (p.size - 1) =
          entries_ext p.array a 1 0 (p.size - 1)
            (λ j l. ground (arith, shift_left_lem p.array 0 p.size j)) in
        let old : entries b 0 recipient.size ≡ entries recipient.array 0 recipient.size =
          entries_ext b recipient.array 0 0 recipient.size (λ j l. ground arith) in
        let item : b recipient.size ≡ p.array 0 = ground arith in
        (
          whole ∙ ap (◌∷◌ (p.array 0)) rest,
          entries_split b 0 recipient.size recipient.size 1 (recipient.size + 1) refl (omega arith)
              ∙ (λ i. old i ++ item i ∷ []),
        )

    -- `MoveLastToFrontOf` of a page that is not empty moves the last entry before those of the recipient.
    pub move_last_to_front_of-contents :
        0 < p.size
        → (contents p ≡ contents (move_last_to_front_of p recipient).0 ++ p.array (p.size - 1) ∷ [])
          × (contents (move_last_to_front_of p recipient).1
              ≡ p.array (p.size - 1) ∷ contents recipient)
    unfolding move_last_to_front_of contents entries
    move_last_to_front_of-contents n =
        let b = update (shift_right recipient.array 0 recipient.size) 0 (p.array (p.size - 1)) in
        let rest : entries b 1 recipient.size ≡ entries recipient.array 0 recipient.size =
          entries_ext b recipient.array 1 0 recipient.size
            (λ j l. ground (arith, shift_right_lem recipient.array 0 recipient.size (1 + j))) in
        let first : b 0 ≡ p.array (p.size - 1) = ground arith in
        (
          entries_split p.array 0 (p.size - 1) (p.size - 1) 1 p.size (omega arith) (omega arith),
          entries_split b 0 1 1 recipient.size (recipient.size + 1) (omega arith) (omega arith)
              ∙ (λ i. first i ∷ rest i),
        )
