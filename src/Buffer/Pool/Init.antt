-- ===== src/Buffer/Pool/Init.antt =====
-- The buffer pool that the constructor makes satisfies the invariant.
use lab.Common.{
  ℕ, zero, suc, ◌+◌, ◌≤◌, ◌<◌, ◌≡◌, refl, inl, inr, true, [], contains, Distinct, length, arith,
  Bool-cases, contains_nil, lookup_nil,
}
use lab.Buffer.Replacer.{Replacer}
use lab.Buffer.Pool.{init, range}
use lab.Buffer.Pool.History.{Open}
use lab.Storage.Disk.{DiskManager, page_limit}

contains-range : (x i n : ℕ) → contains x (range i n) ≡ true → (i ≤ x) × (x < i + n)
unfolding contains range
contains-range x i zero h = cc
contains-range x i (suc n) h = ground (arith, contains-range x (i + 1) n)

range-Distinct : (i n : ℕ) → Distinct (range i n)
unfolding contains range
range-Distinct i zero = tt
range-Distinct i (suc n) = (
  elim (Bool-cases (contains i (range (i + 1) n))) [
    | inl m ↦ absurd (omega (arith, contains-range i (i + 1) n m))
    | inr m ↦ m
  ],
  range-Distinct (i + 1) n,
)

module _ (R : Replacer) {D : Type 0} (zeros : D) where
  -- A new buffer pool over a replacer that holds no frame, and over a database file that is not too
  -- long, satisfies the invariant.
  pub init-Open :
      (n : ℕ) (r : R.State) (d : DiskManager D)
      → R.Holds r []
      → length d.file ≤ page_limit
      → d.next_page_id ≤ page_limit
      → Open R zeros (init R zeros n r d)
  unfolding init
  init-Open n r d h fits ids = record {
    frames = [];
    inv = record {
      holds = h;
      mapped = λ j g m. ground (arith, m, lookup_nil {V = ℕ} j);
      evictable = λ g m. absurd (ground (arith, m, contains_nil g));
      idle = λ j g m z. ground (arith, m, lookup_nil {V = ℕ} j);
      free = λ g m. ground (arith, contains-range g 0 n m);
      free_unmapped = λ g j m k. ground (arith, k, lookup_nil {V = ℕ} j);
      free_distinct = range-Distinct 0 n;
      clean = λ j g m z y. ground (arith, m, lookup_nil {V = ℕ} j);
      file_fits = fits;
      ids_fit = ids;
    };
    unlatched = refl;
  }
