-- ===== src/Buffer/Lru/Ring.antt =====
-- Doubly linked segments on the heap of lru_replacer.cpp.
use lab.Common.{
  ℕ, ◌≡◌, ◌≢◌, true, false, ◌||◌, List, [], ◌∷◌, ◌++◌, arith, ◌==◌, Bool-cases, inl, inr, update,
  contains, remove, remove_absent, Distinct,
}

-- From `p` the links lead through the nodes `ps` to `q`, and back.
abbrev pub Linked : (ℕ → ℕ) → (ℕ → ℕ) → ℕ → List ℕ → ℕ → Type 0
Linked next prev p [] q = (next p ≡ q) × (prev q ≡ p)
Linked next prev p (x ∷ xs) q = (next p ≡ x) × (prev x ≡ p) × Linked next prev x xs q

-- Stores away from the segment leave it alone.
pub Linked-update :
    (next prev : ℕ → ℕ) (a v b w p : ℕ) (ps : List ℕ) (q : ℕ)
    → contains a (p ∷ ps) ≡ false
    → contains b ps ≡ false
    → b ≢ q
    → Linked next prev p ps q
    → Linked (update next a v) (update prev b w) p ps q
unfolding contains
Linked-update next prev a v b w p [] q ha hb hq l = ground arith
Linked-update next prev a v b w p (x ∷ xs) q ha hb hq l =
    ground (arith, Linked-update next prev a v b w x xs q)

module _ (next prev : ℕ → ℕ) where
  pub contains-prev :
      (n p : ℕ) (ps : List ℕ) (q : ℕ)
      → contains n ps ≡ true
      → Linked next prev p ps q
      → contains (prev n) (p ∷ ps) ≡ true
  unfolding contains
  contains-prev n p [] q h l = cc
  contains-prev n p (x ∷ xs) q h l = ground (arith, contains-prev n x xs q)

  pub contains-next :
      (n p : ℕ) (ps : List ℕ) (q : ℕ)
      → contains n (p ∷ ps) ≡ true
      → Linked next prev p ps q
      → (contains (next n) ps || (next n == q)) ≡ true
  unfolding contains
  contains-next n p [] q h l = ground arith
  contains-next n p (x ∷ xs) q h l = ground (arith, contains-next n x xs q)

  -- On a ring with a sentinel no node is its own successor.
  pub next-ne :
      (n p : ℕ) (ps : List ℕ) (q : ℕ)
      → contains n ps ≡ true
      → contains q ps ≡ false
      → Distinct (p ∷ ps)
      → Linked next prev p ps q
      → next n ≢ n
  unfolding contains
  next-ne n p [] q h k d l = cc
  next-ne n p (x ∷ []) q h k d l = ground arith
  next-ne n p (x ∷ y ∷ xs) q h k d l = ground (arith, next-ne n x (y ∷ xs) q)

  pub prev-ne :
      (n p : ℕ) (ps : List ℕ) (q : ℕ)
      → contains n ps ≡ true
      → Distinct (p ∷ ps)
      → Linked next prev p ps q
      → prev n ≢ n
  unfolding contains
  prev-ne n p [] q h d l = cc
  prev-ne n p (x ∷ xs) q h d l = ground (arith, prev-ne n x xs q)

  -- The last node.
  pub contains-last :
      (p x : ℕ) (xs : List ℕ) (q : ℕ)
      → Linked next prev p (x ∷ xs) q
      → (contains (prev q) (x ∷ xs) ≡ true) × (next (prev q) ≡ q)
  unfolding contains
  contains-last p x [] q l = ground arith
  contains-last p x (y ∷ xs) q l = ground (arith, contains-last x y xs q)

  pub remove-last :
      (p x : ℕ) (xs : List ℕ) (q : ℕ)
      → Distinct (x ∷ xs)
      → Linked next prev p (x ∷ xs) q
      → remove (prev q) (x ∷ xs) ++ prev q ∷ [] ≡ x ∷ xs
  unfolding contains remove
  remove-last p x [] q d l = ground arith
  remove-last p x (y ∷ xs) q d l = ground (arith, contains-last x y xs q, remove-last x y xs q)

  Linked-remove_first :
      (p x : ℕ) (xs : List ℕ) (q : ℕ)
      → contains q (x ∷ xs) ≡ false
      → Distinct (p ∷ x ∷ xs)
      → Linked next prev p (x ∷ xs) q
      → Linked (update next p (next x)) (update prev (next x) p) p xs q
  unfolding contains
  Linked-remove_first p x [] q k d l = ground arith
  Linked-remove_first p x (y ∷ xs) q k d l = ground (arith, Linked-update next prev p y y p y xs q)

  -- To point the neighbours of a node at each other takes it out of the segment.
  pub Linked-remove :
      (n p : ℕ) (ps : List ℕ) (q : ℕ)
      → contains n ps ≡ true
      → contains q ps ≡ false
      → Distinct (p ∷ ps)
      → Linked next prev p ps q
      → Linked (update next (prev n) (next n)) (update prev (next n) (prev n)) p (remove n ps) q
  unfolding contains remove
  Linked-remove n p [] q h k d l = cc
  Linked-remove n p (x ∷ xs) q h k d l = elim (Bool-cases (n == x)) [
    | inl here ↦ ground (arith, Linked-remove_first p x xs q k d l, remove_absent x xs)
    | inr there ↦
        ground (arith, contains-prev n x xs q, contains-next n x xs q, Linked-remove n x xs q)
  ]

-- A node that is linked in behind `p`.
pub Linked-insert :
    (next prev : ℕ → ℕ) (n p : ℕ) (ps : List ℕ) (q : ℕ)
    → contains n (p ∷ ps) ≡ false
    → n ≢ q
    → contains p ps ≡ false
    → contains q ps ≡ false
    → Distinct ps
    → Linked next prev p ps q
    → Linked
        (update (update next n (next p)) p n)
        (update (update prev n p) (next p) n)
        p
        (n ∷ ps)
        q
unfolding contains
Linked-insert next prev n p [] q hn nq hp hq d l = ground arith
Linked-insert next prev n p (x ∷ xs) q hn nq hp hq d l = ground (
  arith,
  Linked-update next prev n x n p x xs q,
  Linked-update (update next n x) (update prev n p) p n x n x xs q,
)
