-- ===== src/BTree/Internal/Lookup.antt =====
-- `Lookup` of an internal page leads to the child whose range holds the key.
use Prim.Native.Nat.{Ordering, lt, eq, gt}
use lab.Common.{
  ℕ, ◌+◌, ◌-◌, ◌≤◌, ◌<◌, ◌≡◌, ◌≢◌, inl, inr, refl, sym, ◌∙◌, true, false, arith, Bool-cases, ◌==◌,
  ok,
}
use lab.BTree.Order.{Comparator, positive}
use lab.BTree.Search.{Ascending, IsPosition, search_loop-IsPosition}
use lab.BTree.Internal.{InternalPage, lookup}

module _ {K : Type 0} (c : Comparator K) (p : InternalPage K) (key : K) where
  -- The keys up to `i`, but for the unused first one, are at most `key`, and the keys behind are
  -- larger.
  pub record IsChild (i : ℕ) : Type 0 where
    pub in_page : i < p.size
    pub at_most : (j : ℕ) → 1 ≤ j → j ≤ i → c.comparator (p.array j).0 key ≢ gt
    pub larger : (j : ℕ) → i < j → j < p.size → c.comparator (p.array j).0 key ≡ gt

  module _ (up : Ascending c p.array 1 (p.size - 1)) (two : 1 < p.size) where
    -- Behind a key that is not smaller all keys are larger.
    larger_behind :
        (r j : ℕ)
        → 1 ≤ r
        → r < j
        → j < p.size
        → c.comparator (p.array r).0 key ≢ lt
        → c.comparator (p.array j).0 key ≡ gt
    larger_behind r j a l b d = by_sign (c.comparator (p.array r).0 key) refl
      where
        step : c.comparator (p.array r).0 (p.array j).0 ≡ lt
        step = up r j a l (omega arith)

        by_sign :
            (o : Ordering)
            → c.comparator (p.array r).0 key ≡ o
            → c.comparator (p.array j).0 key ≡ gt
        by_sign lt e = absurd (d e)
        by_sign eq e =
            c.comparator_flip key (p.array j).0
              (sym (c.comparator_eq_left (p.array r).0 key (p.array j).0 e) ∙ step)
        by_sign gt e = c.comparator_flip key (p.array j).0 (
            c.comparator_trans key (p.array r).0 (p.array j).0
              (c.comparator_flip_gt (p.array r).0 key e) step)

    is_positive : (o : Ordering) → positive o ≡ true → o ≡ gt
    is_positive lt h = cc
    is_positive eq h = cc
    is_positive gt h = refl

    first-IsChild : c.comparator (p.array 1).0 key ≡ gt → IsChild 0
    first-IsChild h = record {
      in_page = omega arith;
      at_most = λ j a b. absurd (omega arith);
      larger = λ j a b. elim (Bool-cases (j == 1)) [
        | inl one ↦ ground arith
        | inr more ↦ larger_behind 1 j (omega arith) (ground arith) b (λ e. cc)
      ];
    }

    abbrev Found : Type 0
    Found = (i : ℕ) × (lookup c p key ≡ ok (p.array i).1) × IsChild i

    module _ (r : ℕ) (k : IsPosition c p.array key 1 (p.size - 1) r) where
      before_position : c.comparator (p.array r).0 key ≡ gt → IsChild (r - 1)
      before_position h = record {
        in_page = omega (arith, k.to_last, k.from_first);
        at_most = λ j a b. ground (arith, k.smaller j a (omega (arith, k.from_first)));
        larger = λ j a b. elim (Bool-cases (j == r)) [
          | inl here ↦ ground arith
          | inr beyond ↦
              larger_behind r j k.from_first (ground (arith, k.from_first)) b (λ e. ground arith)
        ];
      }

      at_position : c.comparator (p.array r).0 key ≢ gt → IsChild r
      at_position h = record {
        in_page = omega (arith, k.to_last);
        at_most = λ j a b. elim (Bool-cases (j == r)) [
          | inl here ↦ ground arith
          | inr before ↦ ground (arith, k.smaller j a (ground arith))
        ];
        larger = λ j a b. elim k.reached [
          | inl last ↦ absurd (omega arith)
          | inr d ↦ larger_behind r j k.from_first a b d
        ];
      }

    not_positive : (o : Ordering) → positive o ≡ false → o ≢ gt
    not_positive lt h = λ e. cc
    not_positive eq h = λ e. cc
    not_positive gt h = λ e. cc

    searched : positive (c.comparator (p.array 1).0 key) ≡ false → Found
    unfolding lookup
    searched low =
        let (r, e, k) =
          search_loop-IsPosition c p.array key 1 (p.size - 1) up (p.size + 1) 1 (p.size - 1)
            (omega arith) (omega arith) (omega arith) (omega arith) (λ i a b. absurd (omega arith))
            (inl refl) in
        elim (Bool-cases (positive (c.comparator (p.array r).0 key))) [
          | inl over ↦
              (r - 1, ground (arith, e, k.from_first), before_position r k (is_positive _ over))
          | inr at ↦ (r, ground (arith, e), at_position r k (not_positive _ at))
        ]

    -- `Lookup` on a page of two entries or more, with its keys sorted, always ends, and returns the
    -- child for the key.
    pub lookup-IsChild : Found
    unfolding lookup
    lookup-IsChild = elim (Bool-cases (positive (c.comparator (p.array 1).0 key))) [
      | inl over ↦ (0, rw (over, lookup) refl, first-IsChild (is_positive _ over))
      | inr low ↦ searched low
    ]
