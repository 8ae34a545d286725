-- ===== src/BTree/Tree/Shape.antt =====
-- The shape of a B+ tree on its pages, and the list of its entries from left to right.
use lab.Common.{
  ℕ, zero, suc, ◌+◌, ◌-◌, ◌≤◌, ◌<◌, ◌≡◌, ◌≢◌, refl, ◌∙◌, List, [], ◌∷◌, ◌++◌, arith, none, some,
  inl, inr, Bool-cases, true, ◌==◌, if◌then◌else◌,
}
use lab.BTree.Order.{Comparator, zero?}
use lab.BTree.Search.{Ascending}
use lab.BTree.Sorted.{find_entry}
use lab.BTree.Leaf.{LeafPage}
use lab.BTree.Leaf.Contents.{contents, IsSorted}
use lab.BTree.Internal.{InternalPage}
use lab.BTree.Internal.Lookup.{IsChild}
use lab.BTree.Pages.{Node, leaf, internal, parent_of}

module _ {A : Type 0} where
  -- `lists i ++ … ++ lists (i + n - 1)`
  unfoldable pub join : (ℕ → List A) → ℕ → ℕ → List A
  join lists i zero = []
  join lists i (suc n) = lists i ++ join lists (i + 1) n

module _ {K V : Type 0} where
  -- The entries of the tree of the height below the page `id`, from left to right.
  unfoldable pub tree_entries : (ℕ → Node K V) → ℕ → ℕ → List (K × V)
  unfolding contents join
  tree_entries nodes zero id = elim (nodes id) [ leaf l ↦ contents l | internal p ↦ [] ]
  tree_entries nodes (suc height) id =
      let below = tree_entries nodes height in
      elim (nodes id) [ leaf l ↦ [] | internal p ↦ join (λ i. below (p.array i).1) 0 p.size ]

module _ {K V : Type 0} (c : Comparator K) where
  -- What a walk along joined lists finds.
  find_entry-append-none :
      (key : K) (xs ys : List (K × V))
      → find_entry c key xs ≡ none
      → find_entry c key (xs ++ ys) ≡ find_entry c key ys
  unfolding find_entry
  find_entry-append-none key [] ys h = refl
  find_entry-append-none key (x ∷ xs) ys h = elim (Bool-cases (zero? (c.comparator x.0 key))) [
    | inl same ↦ absurd (hit same h)
    | inr differ ↦ ground (arith, find_entry-append-none key xs ys (ground arith))
  ]
    where
      hit :
          zero? (c.comparator x.0 key) ≡ true
          → (if zero? (c.comparator x.0 key) then some x.1 else find_entry c key xs) ≢ none
      hit same = rw same (λ e. cc)

  find_entry-append-left :
      (key : K) (xs ys : List (K × V))
      → find_entry c key ys ≡ none
      → find_entry c key (xs ++ ys) ≡ find_entry c key xs
  unfolding find_entry
  find_entry-append-left key [] ys h = h
  find_entry-append-left key (x ∷ xs) ys h = ground (arith, find_entry-append-left key xs ys h)

  -- A leaf page that names its parent, with an entry and sorted keys.
  pub record IsLeaf (l : LeafPage K V) (id : ℕ) : Type 0 where
    pub own_id : l.page_id ≡ id
    pub some_entry : 0 < l.size
    pub sorted : IsSorted c l

  -- An internal page of two entries or more with its keys in order; the keys below each child lie
  -- between the keys around it.
  pub record IsInner (p : InternalPage K) (id : ℕ) (below : ℕ → List (K × V)) : Type 0 where
    pub own_id : p.page_id ≡ id
    pub two : 1 < p.size
    pub keys : Ascending c p.array 1 (p.size - 1)
    pub in_range :
        (i : ℕ) (key : K) (value : V)
        → i < p.size
        → find_entry c key (below (p.array i).1) ≡ some value
        → IsChild c p key i

  abbrev pub Bottom : ℕ → Node K V → Type 0
  Bottom id (leaf l) = IsLeaf l id
  Bottom id (internal p) = ⊥

  -- A page above the leaf pages: its children are trees that name it as their parent.
  abbrev pub Inside : (ℕ → Node K V) → (ℕ → List (K × V)) → (ℕ → Type 0) → ℕ → Node K V → Type 0
  Inside nodes below is_tree id (leaf l) = ⊥
  Inside nodes below is_tree id (internal p) =
      IsInner p id below
      × ((i : ℕ) → i < p.size → is_tree (p.array i).1 × (parent_of (nodes (p.array i).1) ≡ some id))

  unfoldable pub IsTree : (ℕ → Node K V) → ℕ → ℕ → Type 0
  IsTree nodes zero id = Bottom id (nodes id)
  IsTree nodes (suc height) id =
      Inside nodes (tree_entries nodes height) (IsTree nodes height) id (nodes id)

  module _ (key : K) (lists : ℕ → List (K × V)) where
    join-none :
        (i n : ℕ)
        → ((j : ℕ) → i ≤ j → j < i + n → find_entry c key (lists j) ≡ none)
        → find_entry c key (join lists i n) ≡ none
    unfolding join find_entry
    join-none i zero h = refl
    join-none i (suc n) h =
        find_entry-append-none key (lists i) (join lists (i + 1) n)
          (h i (omega arith) (omega arith))
        ∙ join-none (i + 1) n (λ j a b. h j (omega arith) (omega arith))

    -- A key that only one of the lists can have is found there.
    pub find_entry-join :
        (k i n : ℕ)
        → i ≤ k
        → k < i + n
        → ((j : ℕ) → i ≤ j → j < i + n → j ≢ k → find_entry c key (lists j) ≡ none)
        → find_entry c key (join lists i n) ≡ find_entry c key (lists k)
    unfolding join
    find_entry-join k i zero a b h = absurd (omega arith)
    find_entry-join k i (suc n) a b h = elim (Bool-cases (i == k)) [
      | inl here ↦
          let e : i ≡ k = ground arith in
          rw e (
            find_entry-append-left key (lists k) (join lists (k + 1) n)
              (join-none (k + 1) n (λ j x y. h j (omega arith) (omega arith) (omega arith))))
      | inr later ↦
          find_entry-append-none key (lists i) (join lists (i + 1) n)
            (h i (omega arith) (omega arith) (ground arith))
          ∙ find_entry-join k (i + 1) n (ground arith) (omega arith)
              (λ j x y. h j (omega arith) (omega arith))
    ]

  abbrev pub Below : (ℕ → Node K V) → ℕ → ℕ → Node K V → Type 0
  Below nodes height id = Inside nodes (tree_entries nodes height) (IsTree nodes height) id
