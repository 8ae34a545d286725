-- ===== src/BTree/Search.antt =====
-- The binary search that b_plus_tree_leaf_page.cpp and b_plus_tree_internal_page.cpp repeat in each
-- method.
use Prim.Native.Nat.{Ordering, lt, eq, gt}
use lab.Common.{
  ℕ, zero, suc, ◌+◌, ◌/◌, ◌≤◌, ◌<◌, ◌≡◌, ◌≢◌, ◌⊎◌, inl, inr, refl, true, false, arith, ltb,
  if◌then◌else◌, Option, none, some, Bool-cases,
}
use lab.BTree.Order.{Comparator, ge}

-- `while (l < r) { mid = (l + r) >> 1; … }`, which ends with `r`; `none` if the fuel runs out.
module _ {K V : Type 0} (c : Comparator K) (array : ℕ → K × V) (key : K) where
  unfoldable pub search_loop : ℕ → ℕ → ℕ → Option ℕ
  search_loop zero l r = none
  search_loop (suc fuel) l r =
      let mid = (l + r) / 2 in
      let left = search_loop fuel l mid in
      let right = search_loop fuel (mid + 1) r in
      if ltb l r then (if ge (c.comparator (array mid).0 key) then left else right) else some r

  -- The keys before `r` are smaller than `key`, and the key at `r` is not, unless `r` is the last
  -- index.
  pub record IsPosition (first last r : ℕ) : Type 0 where
    pub from_first : first ≤ r
    pub to_last : r ≤ last
    pub smaller : (i : ℕ) → first ≤ i → i < r → c.comparator (array i).0 key ≡ lt
    pub reached : (r ≡ last) ⊎ (c.comparator (array r).0 key ≢ lt)

ge-false : (o : Ordering) → ge o ≡ false → o ≡ lt
ge-false lt h = refl
ge-false eq h = cc
ge-false gt h = cc

-- Keys ascend from the index `first` to the index `last`.
abbrev pub Ascending : {K V : Type 0} → Comparator K → (ℕ → K × V) → ℕ → ℕ → Type 0
Ascending c array first last =
    (i j : ℕ) → first ≤ i → i < j → j ≤ last → c.comparator (array i).0 (array j).0 ≡ lt

module _ {K V : Type 0} (c : Comparator K) (array : ℕ → K × V) (key : K) (first last : ℕ)
    (up : Ascending c array first last) where
  -- With fuel beyond `r - l` the loop ends, at the position of the key.
  pub search_loop-IsPosition :
      (fuel l r : ℕ)
      → first ≤ l
      → l ≤ r
      → r ≤ last
      → r < l + fuel
      → ((i : ℕ) → first ≤ i → i < l → c.comparator (array i).0 key ≡ lt)
      → (r ≡ last) ⊎ (c.comparator (array r).0 key ≢ lt)
      → (s : ℕ) × (search_loop c array key fuel l r ≡ some s) × IsPosition c array key first last s
  unfolding search_loop
  search_loop-IsPosition zero l r hf hl hr hm low high = absurd (omega arith)
  search_loop-IsPosition (suc fuel) l r hf hl hr hm low high = elim (Bool-cases (ltb l r)) [
    | inr end ↦ (r, rw end, ended end)
    | inl more ↦ elim (Bool-cases (ge (c.comparator (array ((l + r) / 2)).0 key))) [
      | inl left ↦
          let mid = (l + r) / 2 in
          let b : (l ≤ mid) × (mid < r) = halfway more in
          let (s, e, k) =
            search_loop-IsPosition fuel l ((l + r) / 2) hf b.0 (omega (arith, b)) (omega (arith, b))
              low (inr (λ x. cc)) in
          (s, rw (more, left) e, k)
      | inr right ↦
          let mid = (l + r) / 2 in
          let b : (l ≤ mid) × (mid < r) = halfway more in
          let (s, e, k) =
            search_loop-IsPosition fuel ((l + r) / 2 + 1) r (omega (arith, b)) (omega (arith, b)) hr
              (omega (arith, b)) (below-mid right (omega (arith, b))) high in
          (s, rw (more, right) e, k)
    ]
  ]
    where
      halfway : ltb l r ≡ true → (l ≤ (l + r) / 2) × ((l + r) / 2 < r)
      halfway h = ground arith

      ended : ltb l r ≡ false → IsPosition c array key first last r
      ended h = record {
        from_first = omega arith;
        to_last = hr;
        smaller = λ i a b. low i a (ground arith);
        reached = high;
      }

      below-mid :
          ge (c.comparator (array ((l + r) / 2)).0 key) ≡ false
          → (l + r) / 2 ≤ last
          → (i : ℕ) → first ≤ i
          → i < (l + r) / 2 + 1
          → c.comparator (array i).0 key ≡ lt
      below-mid h b i a k = elim (Bool-cases (ltb i ((l + r) / 2))) [
        | inl before ↦
            c.comparator_trans (array i).0 (array ((l + r) / 2)).0 key
              (up i ((l + r) / 2) a (ground arith) b) (ge-false _ h)
        | inr at ↦ let e : i ≡ (l + r) / 2 = ground arith in rw e (ge-false _ h)
      ]
