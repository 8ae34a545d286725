-- ===== src/BTree/Leaf/Contents.antt =====
-- The entries of a leaf page, and the position that its searches find.
use Prim.Native.Nat.{Ordering, lt, eq, gt}
use lab.Common.{ℕ, ◌+◌, ◌-◌, ◌≤◌, ◌<◌, ◌≡◌, ◌≢◌, inl, refl, sym, ◌∙◌, List, ◌++◌, arith, some}
use lab.BTree.Order.{Comparator}
use lab.BTree.Entries.{entries, entries_split}
use lab.BTree.Search.{Ascending, IsPosition, search_loop-IsPosition}
use lab.BTree.Sorted.{Larger}
use lab.BTree.Leaf.{LeafPage, search}

unfoldable pub contents : {K V : Type 0} → LeafPage K V → List (K × V)
contents p = entries p.array 0 p.size

-- The keys that the page counts ascend strictly: they are sorted and unique.
abbrev pub IsSorted : {K V : Type 0} → Comparator K → LeafPage K V → Type 0
IsSorted c p = Ascending c p.array 0 (p.size - 1)

module _ {K V : Type 0} (c : Comparator K) (p : LeafPage K V) (key : K) (up : IsSorted c p)
    (some_entry : 0 < p.size) where
  -- On a page with an entry the search ends, within its fuel, at the position of the key.
  pub search-IsPosition :
      (r : ℕ) × (search c p key ≡ some r) × IsPosition c p.array key 0 (p.size - 1) r
  unfolding search
  search-IsPosition =
      let (r, e, k) =
        search_loop-IsPosition c p.array key 0 (p.size - 1) up p.size 0 (p.size - 1) (omega arith)
          (omega arith) (omega arith) (omega arith) (λ i a b. absurd (omega arith)) (inl refl) in
      (r, ground (arith, e), k)

  -- Beyond a position where the key is not larger, all keys are larger.
  pub Larger-above :
      (r : ℕ)
      → r < p.size
      → c.comparator (p.array r).0 key ≢ lt
      → Larger c p.array key (r + 1) (p.size - 1 - r)
  Larger-above r h d j a b = above (c.comparator (p.array r).0 key) refl
    where
      step : c.comparator (p.array r).0 (p.array j).0 ≡ lt
      step = up r j (omega arith) (omega arith) (omega arith)

      above :
          (o : Ordering) → c.comparator (p.array r).0 key ≡ o → c.comparator (p.array j).0 key ≡ gt
      above lt e = absurd (d e)
      above eq e =
          c.comparator_flip key (p.array j).0
            (sym (c.comparator_eq_left (p.array r).0 key (p.array j).0 e) ∙ step)
      above gt e = c.comparator_flip key (p.array j).0 (
          c.comparator_trans key (p.array r).0 (p.array j).0
            (c.comparator_flip_gt (p.array r).0 key e) step)

-- The entries split at any index.
pub contents_split :
    {K V : Type 0} (p : LeafPage K V) (m : ℕ)
    → m ≤ p.size
    → contents p ≡ entries p.array 0 m ++ entries p.array m (p.size - m)
unfolding contents
contents_split p m h = entries_split p.array 0 m m (p.size - m) p.size (omega arith) (omega arith)
