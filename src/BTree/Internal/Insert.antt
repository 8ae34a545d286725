-- ===== src/BTree/Internal/Insert.antt =====
-- `InsertNodeAfter` and `PopulateNewRoot` of an internal page.
use lab.Common.{
  ℕ, zero, suc, ◌+◌, ◌-◌, ◌<◌, ◌≡◌, ◌≢◌, refl, ◌∙◌, List, ◌∷◌, ◌++◌, arith, if◌then◌else◌,
  Bool-cases, ◌==◌, inl, inr, update, ltb, leb, ◌&&◌,
}
use lab.BTree.Entries.{entries, entries_split, entries_ext}
use lab.BTree.Internal.{InternalPage, insert_loop, insert_node_after}

module _ {K : Type 0} where
  unfoldable pub contents : InternalPage K → List (K × ℕ)
  contents p = entries p.array 0 p.size

  insert_loop_lem :
      (old_value : ℕ) (new : K × ℕ) (array : ℕ → K × ℕ) (t n j : ℕ)
      → t < n
      → (array t).1 ≡ old_value
      → ((i : ℕ) → t < i → i < n → (array i).1 ≢ old_value)
      → insert_loop old_value new array n j ≡ (
          if j == suc t then new else (if ltb (suc t) j && leb j n then array (j - 1) else array j))
  unfolding insert_loop
  insert_loop_lem old_value new array t zero j h e d = absurd (omega arith)
  insert_loop_lem old_value new array t (suc n) j h e d = elim (Bool-cases (t == n)) [
    | inl here ↦ ground arith
    | inr below ↦ ground (
      arith,
      d n (ground arith) (omega arith),
      insert_loop_lem old_value new (update array (suc n) (array n)) t n j (ground arith)
          (ground arith) (λ i a b. ground (arith, d i a (omega arith))),
    )
  ]

  -- Where the page has `old_value` at the index `t` and nowhere behind it, `InsertNodeAfter` puts
  -- the new entry right behind it, keeps all other entries in order, and returns the new size.
  pub insert_node_after-contents :
      (p : InternalPage K) (old_value : ℕ) (key : K) (value t : ℕ)
      → t < p.size
      → (p.array t).1 ≡ old_value
      → ((i : ℕ) → t < i → i < p.size → (p.array i).1 ≢ old_value)
      → (contents p ≡ entries p.array 0 (t + 1) ++ entries p.array (t + 1) (p.size - 1 - t))
        × (contents (insert_node_after p old_value key value).0
            ≡ entries p.array 0 (t + 1) ++ (key, value) ∷ entries p.array (t + 1) (p.size - 1 - t))
        × ((insert_node_after p old_value key value).1 ≡ p.size + 1)
  unfolding contents insert_node_after entries
  insert_node_after-contents p old_value key value t h e d =
      let a = insert_loop old_value (key, value) p.array p.size in
      let law : (j : ℕ)
          → a j ≡ (
              if j == suc t
              then (key, value)
              else (if ltb (suc t) j && leb j p.size then p.array (j - 1) else p.array j)) =
        λ j. insert_loop_lem old_value (key, value) p.array t p.size j h e d in
      let before : entries a 0 (t + 1) ≡ entries p.array 0 (t + 1) =
        entries_ext a p.array 0 0 (t + 1) (λ j l. ground (arith, law j)) in
      let here : a (t + 1) ≡ (key, value) = ground (arith, law (t + 1)) in
      let after : entries a (t + 1 + 1) (p.size - 1 - t)
          ≡ entries p.array (t + 1) (p.size - 1 - t) =
        entries_ext a p.array (t + 1 + 1) (t + 1) (p.size - 1 - t)
          (λ j l. ground (arith, law (t + 1 + 1 + j))) in
      (
        entries_split p.array 0 (t + 1) (t + 1) (p.size - 1 - t) p.size (omega arith) (omega arith),
        entries_split a 0 (t + 1) (t + 1) (suc (p.size - 1 - t)) (p.size + 1) (omega arith)
              (omega arith)
            ∙ (λ i. before i ++ here i ∷ after i),
        refl,
      )
