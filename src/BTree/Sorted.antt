-- ===== src/BTree/Sorted.antt =====
-- Lists of entries in key order: linear reference versions of the searches of the B+ tree pages, and
-- what they compute from the position that a binary search finds.
use Prim.Native.Nat.{lt, eq, gt}
use lab.Common.{
  ℕ, zero, suc, ◌+◌, ◌≤◌, ◌<◌, ◌≡◌, ◌≢◌, ◌⊎◌, refl, List, [], ◌∷◌, ◌++◌, arith, if◌then◌else◌,
  Option, none, some,
}
use lab.BTree.Order.{Comparator, ge, zero?}
use lab.BTree.Entries.{entries}

module _ {K V : Type 0} (c : Comparator K) where
  -- Before the first entry whose key is not smaller.
  unfoldable pub insert_entry : K → V → List (K × V) → List (K × V)
  insert_entry key value [] = (key, value) ∷ []
  insert_entry key value (e ∷ es) =
      if ge (c.comparator e.0 key) then (key, value) ∷ e ∷ es else e ∷ insert_entry key value es

  unfoldable pub find_entry : K → List (K × V) → Option V
  find_entry key [] = none
  find_entry key (e ∷ es) = if zero? (c.comparator e.0 key) then some e.1 else find_entry key es

  unfoldable pub remove_entry : K → List (K × V) → List (K × V)
  remove_entry key [] = []
  remove_entry key (e ∷ es) = if zero? (c.comparator e.0 key) then es else e ∷ remove_entry key es

  pub find_entry-insert_entry :
      (key : K) (value : V) (es : List (K × V))
      → find_entry key (insert_entry key value es) ≡ some value
  unfolding find_entry insert_entry
  find_entry-insert_entry key value [] = ground (arith, c.comparator_refl key)
  find_entry-insert_entry key value (e ∷ es) =
      ground (arith, c.comparator_refl key, find_entry-insert_entry key value es)

  pub find_entry-insert_entry_other :
      (key other : K) (value : V) (es : List (K × V))
      → c.comparator key other ≢ eq
      → find_entry other (insert_entry key value es) ≡ find_entry other es
  unfolding find_entry insert_entry
  find_entry-insert_entry_other key other value [] d = ground arith
  find_entry-insert_entry_other key other value (e ∷ es) d =
      ground (arith, find_entry-insert_entry_other key other value es d)

  module _ (array : ℕ → K × V) (key : K) where
    -- The keys of `n` entries from `i` on are smaller than `key`, or larger.
    abbrev pub Smaller : ℕ → ℕ → Type 0
    Smaller i n = (j : ℕ) → i ≤ j → j < i + n → c.comparator (array j).0 key ≡ lt

    abbrev pub Larger : ℕ → ℕ → Type 0
    Larger i n = (j : ℕ) → i ≤ j → j < i + n → c.comparator (array j).0 key ≡ gt

    pub insert_entry-Smaller :
        (value : V) (i m : ℕ) (es : List (K × V))
        → Smaller i m
        → insert_entry key value (entries array i m ++ es)
          ≡ entries array i m ++ insert_entry key value es
    unfolding insert_entry entries
    insert_entry-Smaller value i zero es h = refl
    insert_entry-Smaller value i (suc m) es h = ground (
      arith,
      h i,
      insert_entry-Smaller value (i + 1) m es (λ j a b. h j (omega arith) (omega arith)),
    )

    pub insert_entry_here :
        (value : V) (i n : ℕ)
        → (n ≡ 0) ⊎ (c.comparator (array i).0 key ≢ lt)
        → insert_entry key value (entries array i n) ≡ (key, value) ∷ entries array i n
    unfolding insert_entry entries
    insert_entry_here value i zero h = refl
    insert_entry_here value i (suc n) h = ground arith

    -- Entries that differ from the key are passed over.
    pub find_entry-Smaller :
        (i m : ℕ) (es : List (K × V))
        → Smaller i m
        → find_entry key (entries array i m ++ es) ≡ find_entry key es
    unfolding find_entry entries
    find_entry-Smaller i zero es h = refl
    find_entry-Smaller i (suc m) es h =
        ground
          (arith, h i, find_entry-Smaller (i + 1) m es (λ j a b. h j (omega arith) (omega arith)))

    pub find_entry-Larger : (i n : ℕ) → Larger i n → find_entry key (entries array i n) ≡ none
    unfolding find_entry entries
    find_entry-Larger i zero h = refl
    find_entry-Larger i (suc n) h =
        ground (arith, h i, find_entry-Larger (i + 1) n (λ j a b. h j (omega arith) (omega arith)))

    pub remove_entry-Smaller :
        (i m : ℕ) (es : List (K × V))
        → Smaller i m
        → remove_entry key (entries array i m ++ es) ≡ entries array i m ++ remove_entry key es
    unfolding remove_entry entries
    remove_entry-Smaller i zero es h = refl
    remove_entry-Smaller i (suc m) es h =
        ground
          (arith, h i, remove_entry-Smaller (i + 1) m es (λ j a b. h j (omega arith) (omega arith)))

    pub remove_entry-Larger :
        (i n : ℕ) → Larger i n → remove_entry key (entries array i n) ≡ entries array i n
    unfolding remove_entry entries
    remove_entry-Larger i zero h = refl
    remove_entry-Larger i (suc n) h =
        ground
          (arith, h i, remove_entry-Larger (i + 1) n (λ j a b. h j (omega arith) (omega arith)))
