-- ===== src/BTree/Order.antt =====
-- The KeyComparator of the B+ tree templates: it returns an `int`, of which only the sign is read.
use Prim.Native.Nat.{compare, Ordering, lt, eq, gt}
use lab.Common.{ℕ, ◌≡◌, Bool, true, false, arith}

-- `comparator(a, b) >= 0`, `> 0` and `== 0`
abbrev pub ge : Ordering → Bool
ge lt = false
ge eq = true
ge gt = true

abbrev pub positive : Ordering → Bool
positive gt = true
positive eq = false
positive lt = false

abbrev pub zero? : Ordering → Bool
zero? eq = true
zero? lt = false
zero? gt = false

-- A total order: the sign of `comparator(a, b)`.
pub record Comparator (K : Type 0) : Type 0 where
  pub comparator : K → K → Ordering
  pub comparator_refl : (a : K) → comparator a a ≡ eq
  pub comparator_flip : (a b : K) → comparator a b ≡ lt → comparator b a ≡ gt
  pub comparator_flip_gt : (a b : K) → comparator a b ≡ gt → comparator b a ≡ lt
  pub comparator_trans :
      (a b c : K) → comparator a b ≡ lt → comparator b c ≡ lt → comparator a c ≡ lt
  pub comparator_eq_left : (a b c : K) → comparator a b ≡ eq → comparator a c ≡ comparator b c

pub refl_law : (a : ℕ) → compare a a ≡ eq
refl_law a = ground arith

pub flip_law : (a b : ℕ) → compare a b ≡ lt → compare b a ≡ gt
flip_law a b h = ground arith

pub flip_gt_law : (a b : ℕ) → compare a b ≡ gt → compare b a ≡ lt
flip_gt_law a b h = ground arith

pub trans_law : (a b c : ℕ) → compare a b ≡ lt → compare b c ≡ lt → compare a c ≡ lt
trans_law a b c h k = ground arith

pub eq_law : (a b c : ℕ) → compare a b ≡ eq → compare a c ≡ compare b c
eq_law a b c h = ground arith

-- Integer keys.
abbrev pub numbers : Comparator ℕ
numbers = record {
  comparator = compare;
  comparator_refl = refl_law;
  comparator_flip = flip_law;
  comparator_flip_gt = flip_gt_law;
  comparator_trans = trans_law;
  comparator_eq_left = eq_law;
}
